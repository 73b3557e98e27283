-- ===== src/Proxy/Served.antt =====
-- A subscriber stays subscribed to a watch that is not cancelled.
use flagd.Prelude.{
  ℕ, eqb, Bool, true, false, not, ◌||◌, Option, none, some, List, [], ◌∷◌, String, ◌==◌, ◌≡◌, ◌≢◌,
  ◌⊎◌, inl, inr, refl, sym, subst, arith, eq_iff, eq_refl, Bool-cases, Option-cases,
}
use flagd.Prelude.Tests.{All, In}
use flagd.Prelude.Dict.{lookup, insert, remove, lookup-insert, lookup-remove}
use flagd.Proxy.{
  Watch, Coordinator, Turn, registered, context_done, source_failed, manager_done, watch_done, tick,
  add_key, delete_key, no_subs, register_subscription, end_subscription, end_watch, delete_watch,
  cleanup, step, run,
}

-- The target's watch runs, with the key among its subscribers.
abbrev pub IsServed : Coordinator → String → ℕ → Type 0
IsServed s target key =
    (sh : Watch) × (lookup target s ≡ some sh) × (sh.is_cancelled ≡ false) × In key sh.subs

-- The turn is neither the end of the subscriber's context nor the end of the target's source, nor
-- that the end of the manager's context reaches the target's watch.
abbrev pub Spares : String → ℕ → Turn → Type 0
Spares target key (context_done t k) = (t ≢ target) ⊎ (k ≢ key)
Spares target key (source_failed t) = t ≢ target
Spares target key (manager_done t) = t ≢ target
Spares target key turn = Unit

In-add_key : (k key : ℕ) (subs : List ℕ) → (k ≡ key) ⊎ In k subs → In k (add_key key subs)
unfolding add_key
In-add_key k key [] (inl e) = inl (sym e)
In-add_key k key [] (inr i) = absurd i
In-add_key k key (x ∷ rest) i = elim (Bool-cases (eqb x key)) [
  | inl same ↦ rw same (elim i [ inl e ↦ inl (ground (arith, same, e)) | inr there ↦ there ])
  | inr other ↦ rw other (elim i [
    | inl e ↦ inr (In-add_key k key rest (inl e))
    | inr (inl here) ↦ inl here
    | inr (inr there) ↦ inr (In-add_key k key rest (inr there))
  ])
]

In-delete_key : (k key : ℕ) (subs : List ℕ) → k ≢ key → In k subs → In k (delete_key key subs)
unfolding delete_key
In-delete_key k key [] ne i = absurd i
In-delete_key k key (x ∷ rest) ne (inl here) =
    let other : eqb x key ≡ false = ground (arith, here, ne) in rw other (inl here)
In-delete_key k key (x ∷ rest) ne (inr there) = elim (Bool-cases (eqb x key)) [
  | inl same ↦ rw same (In-delete_key k key rest ne there)
  | inr other ↦ rw other (inr (In-delete_key k key rest ne there))
]

-- A watch that is stored keeps the subscriber served if it serves it, where it is the same target.
IsServed-insert :
    (s : Coordinator) (target t : String) (key : ℕ) (w : Watch)
    → IsServed s target key
    → ((t ≡ target) → (w.is_cancelled ≡ false) × In key w.subs)
    → IsServed (insert t w s) target key
IsServed-insert s target t key w (sh, found, live, i) keeps = elim (Bool-cases (t == target)) [
  | inl same ↦
      let (live', i') = keeps ((eq_iff t target).0 same) in
      (w, ground (arith, same, lookup-insert t target w s), live', i')
  | inr other ↦ (sh, ground (arith, other, found, lookup-insert t target w s), live, i)
]

-- What a lookup that finds the watch says of it.
found-IsServed :
    (s : Coordinator) (target t : String) (key : ℕ) (sh : Watch)
    → IsServed s target key
    → lookup t s ≡ some sh
    → t ≡ target
    → (sh.is_cancelled ≡ false) × In key sh.subs
found-IsServed s target t key sh (sh', found, live, i) here e =
    let same : sh' ≡ sh = ground (arith, found, here, e) in
    subst (λ w. (w.is_cancelled ≡ false) × In key w.subs) same (live, i)

register_subscription-kept :
    (s : Coordinator) (target t : String) (key k : ℕ)
    → IsServed s target key
    → IsServed (register_subscription s t k) target key
unfolding register_subscription
register_subscription-kept s target t key k h = elim (Option-cases (lookup t s)) [
  | inl n ↦
      let w : Watch = record { subs = k ∷ []; is_cancelled = false } in
      let q : register_subscription s t k ≡ insert t w s = ground (arith, n) in
      rw q (IsServed-insert s target t key w h (λ e. absurd (ground (arith, n, e, h.1))))
  | inr (sh, n) ↦
      let w : Watch = record sh { subs = add_key k sh.subs } in
      let q : register_subscription s t k ≡ insert t w s = ground (arith, n) in
      rw q (
        IsServed-insert s target t key w h (λ e.
          let (live, i) = found-IsServed s target t key sh h n e in
          (live, In-add_key key k sh.subs (inr i))))
]

end_subscription-kept :
    (s : Coordinator) (target t : String) (key k : ℕ)
    → (t ≢ target) ⊎ (k ≢ key)
    → IsServed s target key
    → IsServed (end_subscription s t k) target key
unfolding end_subscription
end_subscription-kept s target t key k ne h = elim (Option-cases (lookup t s)) [
  | inl n ↦ let q : end_subscription s t k ≡ s = ground (arith, n) in rw q h
  | inr (sh, n) ↦
      let w : Watch = record sh { subs = delete_key k sh.subs } in
      let q : end_subscription s t k ≡ insert t w s = ground (arith, n) in
      rw q (
        IsServed-insert s target t key w h (λ e.
          let (live, i) = found-IsServed s target t key sh h n e in
          (
            live,
            In-delete_key key k sh.subs
                (λ same. elim ne [ inl apart ↦ apart e | inr apart ↦ apart (sym same) ]) i,
          )))
]

end_watch-kept :
    (s : Coordinator) (target t : String) (key : ℕ)
    → t ≢ target
    → IsServed s target key
    → IsServed (end_watch s t) target key
unfolding end_watch
end_watch-kept s target t key ne h = elim (Option-cases (lookup t s)) [
  | inl n ↦ let q : end_watch s t ≡ s = ground (arith, n) in rw q h
  | inr (sh, n) ↦
      let w : Watch = record sh { is_cancelled = true } in
      let q : end_watch s t ≡ insert t w s = ground (arith, n) in
      rw q (IsServed-insert s target t key w h (λ e. absurd (ne e)))
]

delete_watch-kept :
    (s : Coordinator) (target t : String) (key : ℕ)
    → IsServed s target key
    → IsServed (delete_watch s t) target key
unfolding delete_watch
delete_watch-kept s target t key h = elim (Option-cases (lookup t s)) [
  | inl n ↦ let q : delete_watch s t ≡ s = ground (arith, n) in rw q h
  | inr (sh, n) ↦ elim (Bool-cases sh.is_cancelled) [
    | inl c ↦
        let (sh', found, live, i) = h in
        let q : delete_watch s t ≡ remove t s = ground (arith, n, c) in
        rw q (
          sh',
          ground (arith, found, n, c, live, lookup-remove t target s, eq_iff t target),
          live,
          i,
        )
    | inr c ↦ let q : delete_watch s t ≡ s = ground (arith, n, c) in rw q h
  ]
]

lookup-cleanup :
    (s : Coordinator) (target : String) (sh : Watch)
    → lookup target s ≡ some sh
    → lookup target (cleanup s)
      ≡ some (record sh { is_cancelled = sh.is_cancelled || no_subs sh.subs })
unfolding cleanup lookup
lookup-cleanup [] target sh h = absurd (ground (arith, h))
lookup-cleanup ((t, w) ∷ rest) target sh h = ground (arith, h, lookup-cleanup rest target sh)

no_subs-In : (k : ℕ) (subs : List ℕ) → In k subs → no_subs subs ≡ false
no_subs-In k [] i = absurd i
no_subs-In k (x ∷ subs) i = refl

cleanup-kept :
    (s : Coordinator) (target : String) (key : ℕ)
    → IsServed s target key
    → IsServed (cleanup s) target key
cleanup-kept s target key (sh, found, live, i) = (
  record sh { is_cancelled = sh.is_cancelled || no_subs sh.subs },
  lookup-cleanup s target sh found,
  rw (live, no_subs-In key sh.subs i) refl,
  i,
)

step-kept :
    (s : Coordinator) (target : String) (key : ℕ) (turn : Turn)
    → Spares target key turn
    → IsServed s target key
    → IsServed (step s turn) target key
unfolding step
step-kept s target key (registered t k) spares h = register_subscription-kept s target t key k h
step-kept s target key (context_done t k) spares h = end_subscription-kept s target t key k spares h
step-kept s target key (source_failed t) spares h = end_watch-kept s target t key spares h
step-kept s target key (manager_done t) spares h = end_watch-kept s target t key spares h
step-kept s target key (watch_done t) spares h = delete_watch-kept s target t key h
step-kept s target key tick spares h = cleanup-kept s target key h

run-kept :
    (s : Coordinator) (target : String) (key : ℕ) (turns : List Turn)
    → All (Spares target key) turns
    → IsServed s target key
    → IsServed (run s turns) target key
unfolding run
run-kept s target key [] spares h = h
run-kept s target key (turn ∷ rest) (first, later) h =
    run-kept (step s turn) target key rest later (step-kept s target key turn first h)

-- The target is not watched, or its watch is not cancelled.
abbrev pub is_open : Option Watch → Bool
is_open none = true
is_open (some sh) = not sh.is_cancelled

register_subscription-IsServed :
    (s : Coordinator) (target : String) (key : ℕ)
    → is_open (lookup target s) ≡ true
    → IsServed (register_subscription s target key) target key
unfolding register_subscription
register_subscription-IsServed s target key open_still = elim (Option-cases (lookup target s)) [
  | inl n ↦
      let w : Watch = record { subs = key ∷ []; is_cancelled = false } in
      (w, ground (arith, n, lookup-insert target target w s, eq_refl target), refl, inl refl)
  | inr (sh, n) ↦
      let w : Watch = record sh { subs = add_key key sh.subs } in
      (
        w,
        ground (arith, n, lookup-insert target target w s, eq_refl target),
        ground (arith, n, open_still),
        In-add_key key key sh.subs (inl refl),
      )
]

-- A subscriber that registers for a target whose watch is not cancelled stays among the subscribers
-- of a watch that is not cancelled, whatever else happens, until its own context or the manager's
-- ends or the target's source fails.
pub run-IsServed :
    (s : Coordinator) (target : String) (key : ℕ) (turns : List Turn)
    → is_open (lookup target s) ≡ true
    → All (Spares target key) turns
    → IsServed (run (register_subscription s target key) turns) target key
run-IsServed s target key turns open_still spares =
    run-kept (register_subscription s target key) target key turns spares
      (register_subscription-IsServed s target key open_still)
