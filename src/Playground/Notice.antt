-- ===== src/Playground/Notice.antt =====
-- The notice "URL copied to clipboard" of App.tsx, `copyUrl`: each copy shows it and starts a timer
-- of five seconds that hides it. Time is in milliseconds; a timer fires when its time has come.
use flagd.Prelude.{
  ℕ, ◌+◌, ◌-◌, ◌≤◌, ◌<◌, leb, Bool, true, false, ◌||◌, List, [], ◌∷◌, ◌≡◌, inl, inr, refl, arith,
  if◌then◌else◌, Bool-cases,
}
use flagd.Prelude.Tests.{In}

pub record Notice : Type 0 where
  pub time : ℕ
  pub shown : Bool
  pub timers : List ℕ

abbrev pub delay : ℕ
delay = 5000

unfoldable pub any_due : ℕ → List ℕ → Bool
any_due now [] = false
any_due now (t ∷ rest) = leb t now || any_due now rest

unfoldable pub pending : ℕ → List ℕ → List ℕ
pending now [] = []
pending now (t ∷ rest) = if leb t now then pending now rest else t ∷ pending now rest

-- The clipboard has taken the address.
unfoldable pub copied_now : Notice → Notice
copied_now n = record n { shown = true; timers = (n.time + delay) ∷ n.timers }

-- Time passes, and the timers that are due fire.
unfoldable pub pass : ℕ → Notice → Notice
unfolding any_due pending
pass d n = record {
  time = n.time + d;
  shown = if any_due (n.time + d) n.timers then false else n.shown;
  timers = pending (n.time + d) n.timers;
}

-- "Reset" and the choice of another template hide the notice, and stop no timer.
unfoldable pub hidden : Notice → Notice
hidden n = record n { shown = false }

pub data Step (n : Notice) : Notice → Type 0 where
  copy : Step n (copied_now n)
  wait : (d : ℕ) → Step n (pass d n)
  reset : Step n (hidden n)

pub data Reach (n : Notice) : Notice → Type 0 where
  here : Reach n n
  next : {m l : Notice} → Reach n m → Step m l → Reach n l

abbrev pub start : Notice
start = record { time = 0; shown = false; timers = [] }

-- While the notice is shown, a timer that will hide it is on its way.
abbrev pub IsTimed : Notice → Type 0
IsTimed n = n.shown ≡ true → (t : ℕ) × In t n.timers × (n.time < t) × (t ≤ n.time + delay)

any_due-In : (now t : ℕ) (timers : List ℕ) → In t timers → t ≤ now → any_due now timers ≡ true
unfolding any_due
any_due-In now t [] i h = absurd i
any_due-In now t (s ∷ rest) (inl e) h = ground (arith, e, h)
any_due-In now t (s ∷ rest) (inr i) h = ground (arith, any_due-In now t rest i h)

In-pending : (now t : ℕ) (timers : List ℕ) → In t timers → now < t → In t (pending now timers)
unfolding pending
In-pending now t [] i h = i
In-pending now t (s ∷ rest) (inl e) h = ground (arith, e, h)
In-pending now t (s ∷ rest) (inr i) h = ground (arith, In-pending now t rest i h)

not_due-lt : (now t : ℕ) (timers : List ℕ) → In t timers → any_due now timers ≡ false → now < t
unfolding any_due
not_due-lt now t [] i h = absurd i
not_due-lt now t (s ∷ rest) (inl e) h = ground (arith, e, h)
not_due-lt now t (s ∷ rest) (inr i) h = not_due-lt now t rest i (ground (arith, h))

Step-IsTimed : {n m : Notice} → Step n m → IsTimed n → IsTimed m
unfolding copied_now pass hidden
Step-IsTimed {n} copy h s = (n.time + delay, inl refl, ground arith, ground arith)
Step-IsTimed {n} (wait d) h s = elim (Bool-cases (any_due (n.time + d) n.timers)) [
  | inl e ↦ absurd (ground (arith, e, s))
  | inr e ↦
      let (t, i, early, late) = h (ground (arith, e, s)) in
      let alive = not_due-lt (n.time + d) t n.timers i e in
      (t, In-pending (n.time + d) t n.timers i alive, alive, ground (arith, late))
]
Step-IsTimed {n} reset h s = absurd (ground (arith, s))

Reach-IsTimed : {n : Notice} → Reach start n → IsTimed n
Reach-IsTimed here = λ s. absurd (ground (arith, s))
Reach-IsTimed (next r step) = Step-IsTimed step (Reach-IsTimed r)

-- Whatever happened before, the notice is hidden once five seconds pass without another copy.
pass-hides : {n : Notice} (d : ℕ) → Reach start n → delay ≤ d → (pass d n).shown ≡ false
unfolding pass
pass-hides {n} d r h = elim (Bool-cases n.shown) [
  | inl s ↦
      let (t, i, early, late) = Reach-IsTimed r s in
      ground (arith, any_due-In (n.time + d) t n.timers i (ground (arith, late, h)))
  | inr s ↦ ground (arith, s)
]

-- A copy within the five seconds of an earlier one does not get its own five seconds: it is hidden
-- as soon as the earlier timer fires.
copied_now-early :
    (n : Notice) (t : ℕ)
    → In t n.timers
    → n.time ≤ t
    → (pass (t - n.time) (copied_now n)).shown ≡ false
unfolding pass copied_now
copied_now-early n t i h =
    ground (arith, any_due-In (n.time + (t - n.time)) t ((n.time + delay) ∷ n.timers) (inr i))
