-- ===== src/Store/Priority.antt =====
-- `hasPriority` against the order of the configured sources: the later a source stands in
-- `FlagSources` (by its last occurrence), the higher its priority.
use mathlib.Core.List.{reverse, reverse-reverse, reverse-append, reverse-cons, append_assoc}
use flagd.Prelude.{
  false, List, [], ◌∷◌, String, ◌≡◌, ◌≢◌, ◌↔◌, ◌++◌, sym, ap, ◌∙◌, eq_iff, eq_refl, arith,
  Bool-cases, inl, inr, ◌==◌,
}
use flagd.Prelude.Tests.{All, All-reverse}
use flagd.Store.{has_priority, priority_loop}

-- `a` occurs in the list, and `b` does not occur behind that place.
abbrev pub StandsBehind : String → String → List String → Type 0
StandsBehind a b sources =
    (before : List String) × (after : List String) × (sources ≡ before ++ a ∷ after)
    × All (λ s. s ≢ b) after

module _ (stored new : String) where
  loop_sound :
      (l : List String)
      → priority_loop stored new l ≡ false
      → (pre : List String) × (post : List String) × (l ≡ pre ++ stored ∷ post)
        × All (λ s. s ≢ new) pre
  unfolding priority_loop
  loop_sound [] h = cc
  loop_sound (s ∷ rest) h = elim (Bool-cases (s == stored)) [
    | inl e ↦ ([], rest, ap (λ x. x ∷ rest) ((eq_iff s stored).0 e), tt)
    | inr e ↦
        let (pre, post, split, none_new) = loop_sound rest (ground (arith, eq_iff s new)) in
        (s ∷ pre, post, ap (◌∷◌ s) split, (ground (arith, eq_iff s new), none_new))
  ]

  loop_complete :
      (pre post : List String)
      → stored ≢ new
      → All (λ s. s ≢ new) pre
      → priority_loop stored new (pre ++ stored ∷ post) ≡ false
  unfolding priority_loop
  loop_complete [] post ne h = ground (arith, eq_refl stored)
  loop_complete (s ∷ pre) post ne h = ground (arith, eq_iff s new, loop_complete pre post ne h.1)

  flip-cons :
      (pre post : List String)
      → reverse (pre ++ stored ∷ post) ≡ reverse post ++ stored ∷ reverse pre
  flip-cons pre post = simp (reverse-append, reverse-cons, append_assoc)

  -- A stored flag is kept, and the new one refused, exactly when the stored flag's source differs
  -- from the new source and is configured behind every occurrence of the new source.
  pub has_priority-eq-false_iff :
      (flag_sources : List String)
      → (has_priority flag_sources stored new ≡ false)
        ↔ ((stored ≢ new) × StandsBehind stored new flag_sources)
  unfolding has_priority
  has_priority-eq-false_iff flag_sources = (refused, kept)
    where
      refused :
          has_priority flag_sources stored new ≡ false
          → (stored ≢ new) × StandsBehind stored new flag_sources
      refused h =
          let (pre, post, split, none_new) =
            loop_sound (reverse flag_sources) (ground (arith, eq_iff stored new)) in
          (
            ground (arith, eq_iff stored new),
            (
              reverse post,
              reverse pre,
              sym (reverse-reverse flag_sources) ∙ ap reverse split ∙ flip-cons pre post,
              All-reverse (λ s. s ≢ new) pre none_new,
            ),
          )

      kept :
          (stored ≢ new) × StandsBehind stored new flag_sources
          → has_priority flag_sources stored new ≡ false
      kept (ne, (before, after, split, none_new)) =
          let same = ap reverse split ∙ flip-cons before after in
          let stop =
            loop_complete (reverse after) (reverse before) ne
              (All-reverse (λ s. s ≢ new) after none_new) in
          ground (arith, eq_iff stored new, same, stop)
