-- ===== src/Sink/Config/Blocks.antt =====
-- The outputs as lines of a document of fluent-bit, and the sections of these lines.
use observability.Base.{
  Bool, true, false, ◌≡◌, refl, ap, ◌∙◌, List, [], ◌∷◌, ◌++◌, map, if◌then◌else◌, Text, codes, All,
  append_assoc, append-nil,
}
use observability.Flb.Parse.{KeyValue, Section}
use observability.Flb.Document.{Line, blank, sections_from, Key, WellFormed}
use observability.Flb.Document.Checks.{Clean}
use observability.Sink.Config.Outputs.{Output, entries, blocks, output_section}

sections-entries :
    (n : Text) (done kvs : List KeyValue) (ls : List Line)
    → sections_from (record { name = n; key_values = done }) (entries kvs ls)
      ≡ sections_from (record { name = n; key_values = done ++ kvs }) ls
unfolding sections_from
sections-entries n done [] ls = rw append-nil
sections-entries n done (kv ∷ kvs) ls =
    sections-entries n (done ++ kv ∷ []) kvs ls ∙ rw append_assoc

pub sections-blocks :
    (s : Section) (os : List Output) → sections_from s (blocks os []) ≡ s ∷ map output_section os
unfolding sections_from blocks output_section
sections-blocks s [] = refl
sections-blocks s (o ∷ os) = ap (◌∷◌ s) (
    sections-entries (codes "OUTPUT") [] o.settings _
    ∙ spaced o.spaced
    ∙ sections-blocks (record { name = codes "OUTPUT"; key_values = o.settings }) os)
  where
    spaced :
        (b : Bool)
        → sections_from
            (record { name = codes "OUTPUT"; key_values = o.settings })
            (if b then blank [] ∷ blocks os [] else blocks os [])
          ≡ sections_from (record { name = codes "OUTPUT"; key_values = o.settings }) (blocks os [])
    spaced true = refl
    spaced false = refl

abbrev pub CleanSetting : KeyValue → Type 0
CleanSetting kv = Key kv.key × Clean kv.value

abbrev pub CleanOutput : Output → Type 0
CleanOutput o = All CleanSetting o.settings

entries-WellFormed :
    (kvs : List KeyValue) (ls : List Line)
    → All CleanSetting kvs
    → All WellFormed ls
    → All WellFormed (entries kvs ls)
entries-WellFormed [] ls h k = k
entries-WellFormed (kv ∷ kvs) ls h k = (
  ((refl, (refl, (refl, (refl, tt)))), h.0.0, ((refl, tt), λ e. cc e), h.0.1),
  entries-WellFormed kvs ls h.1 k,
)

pub blocks-WellFormed : (os : List Output) → All CleanOutput os → All WellFormed (blocks os [])
unfolding blocks
blocks-WellFormed [] h = tt
blocks-WellFormed (o ∷ os) h = (
  tt,
  (
    (tt, (refl, (refl, (refl, (refl, (refl, (refl, tt))))))),
    entries-WellFormed o.settings _ h.0 (spaced o.spaced (blocks-WellFormed os h.1)),
  ),
)
  where
    spaced :
        (b : Bool)
        → All WellFormed (blocks os [])
        → All WellFormed (if b then blank [] ∷ blocks os [] else blocks os [])
    spaced true k = (tt, k)
    spaced false k = k
