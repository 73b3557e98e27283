-- ===== src/FlagSync/Texts.antt =====
-- The text that a source has, as the store determines it.
use flagd.Prelude.{
  true, Option, some, List, String, ◌==◌, ◌≡◌, inl, inr, sym, ap, ◌∙◌, arith, Bool-cases,
  if◌then◌else◌,
}
use flagd.Prelude.Dict.{Dict}
use flagd.Model.{Flag, Metadata}
use flagd.Store.{MemDb, Store, get_all}
use flagd.FlagSync.{Multiplexer, contains, get_all_flags, refill}
use flagd.FlagSync.Refill.{source_text, refill-source_text, refill_known}
use flagd.FlagSync.Publish.{refill-IsKept}

module _ (marshal : Dict Flag → Metadata → Option String) (m : MemDb) (s : Store m) where
  -- All flags with the merged metadata, or the flags of one source with its own.
  abbrev pub text_for : List String → String → Option String
  text_for sources k =
      if k == "" then marshal (get_all m s).0 (get_all m s).1 else source_text marshal m s k sources

  sources-refill : (r : Multiplexer) → (refill marshal m s r).0.sources ≡ r.sources
  sources-refill r = (refill-IsKept marshal m s r).0

  pub text_for-get_all_flags :
      (r : Multiplexer) (k text : String)
      → (refill marshal m s r).1 ≡ true
      → get_all_flags (refill marshal m s r).0 k ≡ inr text
      → text_for r.sources k ≡ some text
  unfolding get_all_flags
  text_for-get_all_flags r k text done h =
      let r' = (refill marshal m s r).0 in
      elim (Bool-cases (k == "")) [
        | inl e ↦ ground (arith, e, h, (refill-source_text marshal m s k r done).0)
        | inr e ↦ elim (Bool-cases (contains r'.sources k)) [
          | inl known ↦
              let (found, at, made) =
                refill_known marshal m s k r done
                  (ap (λ l. contains l k) (sym (sources-refill r)) ∙ known) in
              ground (arith, e, h, known, at, made)
          | inr unknown ↦ absurd (ground (arith, e, h, unknown))
        ]
      ]
