-- ===== src/Sink/Controller/Interleaving.antt =====
-- What is published when the handlers of the two controllers run in any interleaving.
use observability.Base.{
  ◌≡◌, refl, sym, ap, ◌∙◌, subst, List, [], ◌∷◌, ◌++◌, Option, none, some, Text, ◌⊎◌, inl, inr,
  Option-cases, arith,
}
use observability.Sink.Config.{Url, Config, new_config, config_string}
use observability.Sink.Controller.{Replies, World, send}
use observability.Sink.Controller.Events.{
  Thread, of_log_sinks, of_cluster_log_sinks, Event, Cluster, current, no_sinks, after, AllGenuine,
  published, published-send,
}
use observability.Sink.Controller.Threads.{
  Phase, idle, changed, has_read, System, start, phase_of, set_phase, thread_of, change, Move,
  report, read, patch, set_config, report_at, read_at, patch_at, step, run, reports,
}
use observability.Sink.Controller.Sync.{
  Synced, changed_to, change-Synced, IsTextOf, Synced-IsTextOf, first-Synced,
}

some_is : {A : Type 0} (a b : A) → some a ≡ some b → a ≡ b
some_is a b e = cc

impossible : {A : Type 0} (a : A) → ¬ (none ≡ some a)
impossible a e = cc

not_empty : {A : Type 0} (a : A) (rest : List A) → ¬ (a ∷ rest ≡ [])
not_empty a rest e = cc

has_read_is : (a b : Text) → has_read a ≡ has_read b → a ≡ b
has_read_is a b e = cc

not_idle : (a : Text) → ¬ (has_read a ≡ idle)
not_idle a e = cc

pub set_phase_config : (t : Thread) (p : Phase) (s : System) → (set_phase t p s).world ≡ s.world
set_phase_config of_log_sinks p s = refl
set_phase_config of_cluster_log_sinks p s = refl

set_config-config :
    (t : Thread) (o : Option Config) (s : System)
    → (set_config t o s).world.config ≡ changed_to o s.world.config
set_config-config t none s = refl
set_config-config of_log_sinks (some c) s = refl
set_config-config of_cluster_log_sinks (some c) s = refl

pub phase_of-set_phase : (t : Thread) (p : Phase) (s : System) → phase_of t (set_phase t p s) ≡ p
phase_of-set_phase of_log_sinks p s = refl
phase_of-set_phase of_cluster_log_sinks p s = refl

module _ (parse_url : Text → Option Url) where
  -- A report moves the configuration on, from a goroutine that is idle.
  report_config :
      (p : Phase) (e : Event) (s s' : System)
      → report_at p e s ≡ some s'
      → s'.world.config ≡ changed_to (change e s.world.config) s.world.config
  report_config idle e s s' h =
      ap (λ x. x.world.config) (sym (some_is _ s' h))
      ∙ set_config-config (thread_of e) (change e s.world.config) s
  report_config changed e s s' h = cc
  report_config (has_read text) e s s' h = cc

  read_config :
      (p : Phase) (t : Thread) (s s' : System)
      → read_at parse_url p t s ≡ some s'
      → (s'.world ≡ s.world) × (phase_of t s' ≡ has_read (config_string parse_url s.world.config))
  read_config idle t s s' h = absurd (impossible s' h)
  read_config changed t s s' h = (
    ap (λ x. x.world) (sym (some_is _ s' h)) ∙ set_phase_config t _ s,
    ap (phase_of t) (sym (some_is _ s' h)) ∙ phase_of-set_phase t _ s,
  )
  read_config (has_read text) t s s' h = absurd (impossible s' h)

  patch_config_kept :
      (p : Phase) (t : Thread) (r : Replies) (s s' : System)
      → patch_at parse_url p t r s ≡ some s'
      → (text : Text) × (p ≡ has_read text)
        × (s'.world ≡ send r text s.world)
        × (phase_of t s' ≡ idle)
  patch_config_kept idle t r s s' h = absurd (impossible s' h)
  patch_config_kept changed t r s s' h = absurd (impossible s' h)
  patch_config_kept (has_read text) t r s s' h = (
    text,
    refl,
    ap (λ x. x.world) (sym (some_is _ s' h)) ∙ set_phase_config t _ _,
    ap (phase_of t) (sym (some_is _ s' h)) ∙ phase_of-set_phase t _ _,
  )

  send_config : (r : Replies) (text : Text) (w : World) → (send r text w).config ≡ w.config
  unfolding send
  send_config r text w = refl

  -- A first move, and the rest.
  run_first :
      (m : Move) (ms : List Move) (s s' : System)
      → run parse_url (m ∷ ms) s ≡ some s'
      → (next : System) × (step parse_url m s ≡ some next) × (run parse_url ms next ≡ some s')
  unfolding run
  run_first m ms s s' h = elim (Option-cases (step parse_url m s)) [
    | inl e ↦ absurd (ground arith)
    | inr (next, e) ↦ (next, e, ground arith)
  ]

  pub run-step :
      (m : Move) (ms : List Move) (s next mid : System)
      → step parse_url m s ≡ some next
      → run parse_url ms next ≡ some mid
      → run parse_url (m ∷ ms) s ≡ some mid
  unfolding run
  run-step m ms s next mid first before = rw (first, run) before

  run-append :
      (ms ns : List Move) (s s' : System)
      → run parse_url (ms ++ ns) s ≡ some s'
      → (mid : System) × (run parse_url ms s ≡ some mid) × (run parse_url ns mid ≡ some s')
  unfolding run
  run-append [] ns s s' h = (s, refl, h)
  run-append (m ∷ ms) ns s s' h =
      let (next, first, rest) = run_first m (ms ++ ns) s s' h in
      let (mid, before, behind) = run-append ms ns next s' rest in
      (mid, run-step m ms s next mid first before, behind)

  -- Over any moves the configuration stays in step with what is reported.
  run-Synced :
      (ms : List Move) (k : Cluster) (s s' : System)
      → AllGenuine (reports ms) k
      → Synced k s.world.config
      → run parse_url ms s ≡ some s'
      → Synced (current (reports ms) k) s'.world.config
  unfolding run reports current step
  run-Synced [] k s s' g h e = subst (λ x. Synced k x.world.config) (some_is s s' e) h
  run-Synced (report ev ∷ ms) k s s' g h e =
      let (next, first, rest) = run_first (report ev) ms s s' e in
      let config = report_config (phase_of (thread_of ev) s) ev s next first in
      run-Synced ms (after ev k) next s' g.1
        (subst (Synced (after ev k)) (sym config) (change-Synced ev k s.world.config g.0 h)) rest
  run-Synced (read t ∷ ms) k s s' g h e =
      let (next, first, rest) = run_first (read t) ms s s' e in
      let kept = (read_config (phase_of t s) t s next first).0 in
      run-Synced ms k next s' g (subst (λ w. Synced k w.config) (sym kept) h) rest
  run-Synced (patch t r ∷ ms) k s s' g h e =
      let (next, first, rest) = run_first (patch t r) ms s s' e in
      let (text, at, sent, behind) = patch_config_kept (phase_of t s) t r s next first in
      let kept = ap World.config sent ∙ send_config r text s.world in
      run-Synced ms k next s' g (subst (Synced k) (sym kept) h) rest

  -- Where goroutine `t` stands, once it has read a text and nothing is reported since.
  record HasRead (t : Thread) (config : Config) (s : System) : Type 0 where
    kept : s.world.config ≡ config
    phase : (phase_of t s ≡ has_read (config_string parse_url config)) ⊎ (phase_of t s ≡ idle)

  set_other :
      (t u : Thread) (p q : Phase) (s : System)
      → (phase_of t s ≡ q) ⊎ (phase_of t s ≡ idle)
      → (p ≡ q) ⊎ (p ≡ idle)
      → (phase_of t (set_phase u p s) ≡ q) ⊎ (phase_of t (set_phase u p s) ≡ idle)
  set_other of_log_sinks of_log_sinks p q s h k = k
  set_other of_log_sinks of_cluster_log_sinks p q s h k = h
  set_other of_cluster_log_sinks of_log_sinks p q s h k = h
  set_other of_cluster_log_sinks of_cluster_log_sinks p q s h k = k

  phase_of-world :
      (t : Thread) (w : World) (s : System) (q : Phase)
      → (phase_of t s ≡ q) ⊎ (phase_of t s ≡ idle)
      → (phase_of t (record s { world = w }) ≡ q) ⊎ (phase_of t (record s { world = w }) ≡ idle)
  phase_of-world of_log_sinks w s q h = h
  phase_of-world of_cluster_log_sinks w s q h = h

  read_HasRead :
      (t u : Thread) (config : Config) (p : Phase) (s s' : System)
      → HasRead t config s
      → read_at parse_url p u s ≡ some s'
      → HasRead t config s'
  read_HasRead t u config idle s s' h e = absurd (impossible s' e)
  read_HasRead t u config changed s s' h e = subst (HasRead t config) (some_is _ s' e) (record {
    kept = ap World.config (set_phase_config u _ s) ∙ h.kept;
    phase =
        set_other t u _ _ s h.phase (inl (ap (λ c. has_read (config_string parse_url c)) h.kept));
  })
  read_HasRead t u config (has_read text) s s' h e = absurd (impossible s' e)

  patch_HasRead :
      (t u : Thread) (config : Config) (p : Phase) (r : Replies) (s s' : System)
      → HasRead t config s
      → patch_at parse_url p u r s ≡ some s'
      → HasRead t config s'
  patch_HasRead t u config idle r s s' h e = absurd (impossible s' e)
  patch_HasRead t u config changed r s s' h e = absurd (impossible s' e)
  patch_HasRead t u config (has_read text) r s s' h e =
      let sent : System = record s { world = send r text s.world } in
      subst (HasRead t config) (some_is _ s' e) (record {
        kept = ap World.config (set_phase_config u idle sent) ∙ send_config r text s.world ∙ h.kept;
        phase =
            set_other t u idle _ sent (phase_of-world t (send r text s.world) s _ h.phase)
              (inr refl);
      })

  -- Moves without a report keep the text that was read up to date.
  run-HasRead :
      (t : Thread) (config : Config) (ms : List Move) (s s' : System)
      → reports ms ≡ []
      → HasRead t config s
      → run parse_url ms s ≡ some s'
      → HasRead t config s'
  unfolding run reports step
  run-HasRead t config [] s s' q h e = subst (HasRead t config) (some_is s s' e) h
  run-HasRead t config (report ev ∷ ms) s s' q h e = absurd (not_empty ev (reports ms) q)
  run-HasRead t config (read u ∷ ms) s s' q h e =
      let (next, first, rest) = run_first (read u) ms s s' e in
      run-HasRead t config ms next s' q (read_HasRead t u config (phase_of u s) s next h first) rest
  run-HasRead t config (patch u r ∷ ms) s s' q h e =
      let (next, first, rest) = run_first (patch u r) ms s s' e in
      run-HasRead t config ms next s' q (patch_HasRead t u config (phase_of u s) r s next h first)
        rest

  -- A patch sends the text that was read.
  patch-published :
      (t : Thread) (config : Config) (r : Replies) (s s' : System)
      → HasRead t config s
      → run parse_url (patch t r ∷ []) s ≡ some s'
      → published s'.world.effects ≡ some (config_string parse_url config)
  unfolding run step
  patch-published t config r s s' h e =
      let (next, first, rest) = run_first (patch t r) [] s s' e in
      let (text, at, sent, behind) = patch_config_kept (phase_of t s) t r s next first in
      let is_text : text ≡ config_string parse_url config = elim h.phase [
        | inl p ↦ has_read_is text _ (sym at ∙ p)
        | inr p ↦ absurd (not_idle text (sym at ∙ p))
      ] in
      ap (λ x. published x.world.effects) (sym (some_is next s' rest))
      ∙ ap (λ w. published w.effects) sent
      ∙ published-send r text s.world
      ∙ ap some is_text

-- From a new configuration, over any moves of the two goroutines in which one of them reads the
-- text of the sinks, nothing is reported behind that, and it patches last, whatever the API server
-- replies, the outputs that were patched in last are the text of the sinks that are reported, each
-- once, in some order, if each update is of a sink as it was reported and keeps its names; a sink
-- whose deletion is reported by a tombstone counts as still there.
pub published-current :
    (parse_url : Text → Option Url) (w : World) (ms ms' : List Move) (t : Thread) (r : Replies)
    (s : System)
    → w.config ≡ new_config
    → AllGenuine (reports ms) no_sinks
    → reports ms' ≡ []
    → run parse_url (ms ++ read t ∷ (ms' ++ patch t r ∷ [])) (start w) ≡ some s
    → (text : Text) × (published s.world.effects ≡ some text)
      × IsTextOf parse_url (current (reports ms) no_sinks) text
unfolding step
published-current parse_url w ms ms' t r s new genuine quiet e =
    let (before, e₁, e₂) = run-append parse_url ms _ (start w) s e in
    let (reader, first, e₃) = run_first parse_url (read t) _ before s e₂ in
    let (last, e₄, e₅) = run-append parse_url ms' _ reader s e₃ in
    let (same, has) = read_config parse_url (phase_of t before) t before reader first in
    let synced =
      run-Synced parse_url ms no_sinks (start w) before genuine
        (subst (Synced no_sinks) (sym new) first-Synced) e₁ in
    let at_last =
      run-HasRead parse_url t before.world.config ms' reader last quiet
        (record { kept = ap World.config same; phase = inl has }) e₄ in
    (
      config_string parse_url before.world.config,
      patch-published parse_url t before.world.config r last s at_last e₅,
      Synced-IsTextOf parse_url _ before.world.config synced,
    )
