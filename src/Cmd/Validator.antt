-- ===== src/Cmd/Validator.antt =====
-- cmd/validator/main.go. The server is that of Webhook/Lifecycle; a certificate of the type `T` stands
-- for the configuration that has it alone.
use observability.Base.{◌≡◌, refl, ap, List, [], ◌∷◌, ◌++◌, Option, none, some, Text, codes}
use observability.Client.Groups.{Made, made, failed}
use observability.Webhook.Lifecycle.{
  Server, serve_tls, mux, new_server, apply_options, with_tls_config, start, serve_on,
}
use observability.Cmd.Exit.{Exit, up, fatal, ◌>>=◌, step_known-WhenUp, up-WhenUp}

-- `config`.
pub record Env : Type 0 where
  pub http_addr : Text
  pub cert : Text
  pub key : Text

-- The configuration that `envstruct.Load` is given.
abbrev pub default_env : Env
default_env = record {
  http_addr = [];
  cert = codes "/etc/validator-certs/tls.crt";
  key = codes "/etc/validator-certs/tls.key";
}

-- What the calls of `main` return.
pub record Outside (T : Type 0) : Type 0 where
  pub load : Env → Made Env
  pub load_key_pair : Text → Text → Made T
  pub write_report : Option Text

-- `log.Fatalf` with a format that ends in `%s`.
abbrev or_fatal_with : {A : Type 0} → Text → Made A → Exit A
or_fatal_with text (made a) = up a
or_fatal_with text (failed e) = fatal (text ++ e)

-- What `main` runs, and what it prints before: an error of the report does not end the process.
pub record Running (T : Type 0) : Type 0 where
  pub server : Server T
  pub printed : List Text

abbrev report_error : Option Text → List Text
report_error none = []
report_error (some e) = (codes "Unable to write envstruct report: " ++ e) ∷ []

module _ {T : Type 0} where
  unfoldable pub main : Outside T → Exit (Running T)
  unfolding new_server with_tls_config
  main o = do
    cfg ← or_fatal_with (codes "Failed to load config from environment: ") (o.load default_env)
    cert ← or_fatal_with (codes "Unable to load certs: ") (o.load_key_pair cfg.cert cfg.key)
    up (record {
      server = new_server cfg.http_addr (with_tls_config cert ∷ []);
      printed = report_error o.write_report;
    })

-- The certificate of the key pair is what the server serves with, at the address that it listens on.
abbrev ServesTls : {T : Type 0} → (Text → Text → Made T) → Running T → Type 0
ServesTls {T} load_key_pair x =
    (address : Text)
    → (cert : Text) × (key : Text) × (t : T) × (load_key_pair cert key ≡ made t)
      × ((start address x.server).srv ≡ some (record { tls_config = some t; patterns = mux }))
      × (serve_on address (start address x.server) ≡ serve_tls address)

made_is : {A : Type 0} (text : Text) (m : Made A) (a : A) → or_fatal_with text m ≡ up a → m ≡ made a
made_is text (made b) a e = ap made (up_is e)
  where
    up_is : {B : Type 0} {c d : B} → up c ≡ up d → c ≡ d
    up_is e = cc
made_is text (failed m) a e = cc

-- If `main` of the webhook comes up, the server that it runs, at whatever address it listens,
-- serves with TLS there, with a certificate that was loaded and the three handlers.
pub validator_serves_tls :
    {T : Type 0} (o : Outside T) (x : Running T) (address : Text)
    → main o ≡ up x
    → (cert : Text) × (key : Text) × (t : T) × (o.load_key_pair cert key ≡ made t)
      × ((start address x.server).srv ≡ some (record { tls_config = some t; patterns = mux }))
      × (serve_on address (start address x.server) ≡ serve_tls address)
unfolding main new_server apply_options with_tls_config start serve_on
validator_serves_tls o x address e =
    step_known-WhenUp (ServesTls o.load_key_pair)
      (or_fatal_with (codes "Failed to load config from environment: ") (o.load default_env)) _
      (λ cfg _.
        step_known-WhenUp (ServesTls o.load_key_pair)
          (or_fatal_with (codes "Unable to load certs: ") (o.load_key_pair cfg.cert cfg.key)) _
          (λ t k.
            up-WhenUp (ServesTls o.load_key_pair)
              (record {
                server = new_server cfg.http_addr (with_tls_config t ∷ []);
                printed = report_error o.write_report;
              })
              (λ address. (
                cfg.cert,
                cfg.key,
                t,
                made_is (codes "Unable to load certs: ") (o.load_key_pair cfg.cert cfg.key) t k,
                refl,
                refl,
              ))))
      x e address
