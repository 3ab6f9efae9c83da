-- ===== src/Security/RateLimiter/Window.antt =====
-- The limit that `acquire` enforces: no minute holds more than `max_per_minute` slots of an agent,
-- in whatever order the waiting tasks come to their rounds under the lock.
use rooben.Prelude.{
  ℕ, ◌+◌, ◌≤◌, ◌≡◌, refl, Bool, true, false, String, List, [], ◌∷◌, ◌++◌, ◌&&◌, arith, ltb, leb,
  count, length, cond, str_eq, eq_iff, Bool-cases, inl, inr, All, count-append, All-append, leb→le,
  append-nil, append_assoc, subst, sym,
}
use rooben.Dict.{put}
use rooben.Dict.Laws.{get-put}
use rooben.Security.RateLimiter.{RateLimiter, window, stamps, prune, try_acquire}

-- The slots of the minute that ends at `now`.
unfoldable pub in_window : ℕ → List ℕ → ℕ
in_window now ts = count (λ t. leb t now && ltb now (t + window)) ts

-- The slots that an agent gets in a sequence of rounds, each a time and the agent that asks.
unfoldable pub grants : String → List (ℕ × String) → RateLimiter → List ℕ
unfolding try_acquire
grants a [] r = []
grants a ((now, b) ∷ es) r =
    let rest = grants a es (try_acquire now b r).0 in
    cond ((try_acquire now b r).1 && str_eq b a) (now ∷ rest) rest

-- The clock never goes back.
abbrev IsMonotone : ℕ → List (ℕ × String) → Type 0
IsMonotone now [] = Unit
IsMonotone now ((t, a) ∷ es) = (now ≤ t) × IsMonotone t es

pub stamps-put :
    (r : RateLimiter) (agent other : String) (ts : List ℕ)
    → stamps (record r { timestamps = put r.timestamps agent ts }) other
      ≡ cond (str_eq agent other) ts (stamps r other)
unfolding stamps
stamps-put r agent other ts = elim (Bool-cases (str_eq agent other)) [
  | inl same ↦ rw (get-put, same, stamps)
  | inr diff ↦ rw (get-put, diff, stamps)
]

abbrev pub AreBefore : ℕ → List ℕ → Type 0
AreBefore now ts = All (λ t. t ≤ now) ts

AreBefore-mono : (a b : ℕ) (ts : List ℕ) → a ≤ b → AreBefore a ts → AreBefore b ts
AreBefore-mono a b [] le h = tt
AreBefore-mono a b (t ∷ ts) le h = (omega arith, AreBefore-mono a b ts le h.1)

pub prune-AreBefore : (n b : ℕ) (ts : List ℕ) → AreBefore b ts → AreBefore b (prune n ts)
unfolding prune
prune-AreBefore n b [] h = tt
prune-AreBefore n b (t ∷ ts) h = elim (Bool-cases (ltb n (t + window))) [
  | inl live ↦ rw live (h.0, prune-AreBefore n b ts h.1)
  | inr old ↦ rw old (prune-AreBefore n b ts h.1)
]

-- A later minute holds no more of the stamps that are there.
in_window_antitone :
    (a b : ℕ) (ts : List ℕ) → a ≤ b → AreBefore a ts → in_window b ts ≤ in_window a ts
unfolding in_window
in_window_antitone a b [] le h = omega arith
in_window_antitone a b (t ∷ ts) le h = ground (arith, in_window_antitone a b ts le h.1)

-- Pruning drops nothing that a later minute holds.
in_window-prune : (n b : ℕ) (ts : List ℕ) → n ≤ b → in_window b (prune n ts) ≡ in_window b ts
unfolding in_window prune
in_window-prune n b [] le = refl
in_window-prune n b (t ∷ ts) le = ground (arith, in_window-prune n b ts le)

length-prune : (n : ℕ) (ts : List ℕ) → AreBefore n ts → length (prune n ts) ≡ in_window n ts
unfolding in_window prune
length-prune n [] h = refl
length-prune n (t ∷ ts) h = ground (arith, length-prune n ts h.1)

in_window-snoc :
    (b n : ℕ) (ts : List ℕ)
    → in_window b (ts ++ n ∷ []) ≡ in_window b ts + cond (leb n b && ltb b (n + window)) 1 0
unfolding in_window
in_window-snoc b n ts =
    ground (arith, count-append (λ t. leb t b && ltb b (t + window)) ts (n ∷ []))

-- `got` are the slots that an agent got so far, and `ts` the stamps that are kept of them.
record IsFair (max now : ℕ) (got ts : List ℕ) : Type 0 where
  past : AreBefore now got
  stamps_past : AreBefore now ts
  same : (b : ℕ) → now ≤ b → in_window b got ≡ in_window b ts
  bounded : (b : ℕ) → in_window b got ≤ max

module _ (max now t : ℕ) (got ts : List ℕ) (later : now ≤ t) (fair : IsFair max now got ts) where
  live_lem : length (prune t ts) ≡ in_window t got
  live_lem =
      omega (
        arith,
        fair.same t later,
        length-prune t ts (AreBefore-mono now t ts later fair.stamps_past),
      )

  got_past : AreBefore t got
  got_past = AreBefore-mono now t got later fair.past

  live_past : AreBefore t (prune t ts)
  live_past = prune-AreBefore t t ts (AreBefore-mono now t ts later fair.stamps_past)

  -- A minute that ends before `t` does not hold the new slot; one that ends later holds at most the
  -- live stamps besides.
  snoc_bounded : ltb (length (prune t ts)) max ≡ true → (b : ℕ) → in_window b (got ++ t ∷ []) ≤ max
  snoc_bounded room b = elim (Bool-cases (leb t b)) [
    | inl at_or_after ↦ ground (
      arith,
      in_window-snoc b t got,
      live_lem,
      in_window_antitone t b got (leb→le t b at_or_after) got_past,
    )
    | inr before ↦ ground (arith, in_window-snoc b t got, fair.bounded b)
  ]

  granted-IsFair :
      ltb (length (prune t ts)) max ≡ true → IsFair max t (got ++ t ∷ []) (prune t ts ++ t ∷ [])
  granted-IsFair room = record {
    past = All-append (λ x. x ≤ t) got (t ∷ []) got_past (omega arith);
    stamps_past = All-append (λ x. x ≤ t) (prune t ts) (t ∷ []) live_past (omega arith);
    same = λ b le. omega (
      arith,
      in_window-snoc b t got,
      in_window-snoc b t (prune t ts),
      in_window-prune t b ts le,
      fair.same b (omega arith),
    );
    bounded = snoc_bounded room;
  }

  denied-IsFair : IsFair max t got (prune t ts)
  denied-IsFair = record {
    past = got_past;
    stamps_past = live_past;
    same = λ b le. omega (arith, in_window-prune t b ts le, fair.same b (omega arith));
    bounded = fair.bounded;
  }

  waited-IsFair : IsFair max t got ts
  waited-IsFair = record {
    past = got_past;
    stamps_past = AreBefore-mono now t ts later fair.stamps_past;
    same = λ b le. fair.same b (omega arith);
    bounded = fair.bounded;
  }

pub try_acquire-max :
    (t : ℕ) (c : String) (r : RateLimiter) → (try_acquire t c r).0.max_per_minute ≡ r.max_per_minute
unfolding try_acquire
try_acquire-max t c r = ground arith

-- The slot that a round of `c` adds to those of `a`.
abbrev slot : ℕ → String → String → RateLimiter → List ℕ
slot t c a r = cond ((try_acquire t c r).1 && str_eq c a) (t ∷ []) []

try_acquire-IsFair :
    (a c : String) (now t : ℕ) (got : List ℕ) (r : RateLimiter)
    → now ≤ t
    → IsFair r.max_per_minute now got (stamps r a)
    → IsFair r.max_per_minute t (got ++ slot t c a r) (stamps (try_acquire t c r).0 a)
unfolding try_acquire
try_acquire-IsFair a c now t got r later fair =
    let max = r.max_per_minute in
    elim (Bool-cases (ltb (length (prune t (stamps r c))) r.max_per_minute)) [
      | inl room ↦ elim (Bool-cases (str_eq c a)) [
        | inl mine ↦
            let same : c ≡ a = (eq_iff c a).0 mine in
            rw (room, stamps-put, mine)
              (subst (λ x. IsFair max t (got ++ t ∷ []) (prune t (stamps r x) ++ t ∷ [])) (sym same)
                (granted-IsFair max now t got (stamps r a) later fair (rw same at room)))
        | inr other ↦
            rw (room, stamps-put, other, append-nil)
              (waited-IsFair max now t got (stamps r a) later fair)
      ]
      | inr full ↦ elim (Bool-cases (str_eq c a)) [
        | inl mine ↦
            let same : c ≡ a = (eq_iff c a).0 mine in
            rw (full, stamps-put, mine, append-nil)
              (subst (λ x. IsFair max t got (prune t (stamps r x))) (sym same)
                (denied-IsFair max now t got (stamps r a) later fair))
        | inr other ↦
            rw (full, stamps-put, other, append-nil)
              (waited-IsFair max now t got (stamps r a) later fair)
      ]
    ]

append-cond :
    (b : Bool) (t : ℕ) (got rest : List ℕ)
    → got ++ cond b (t ∷ rest) rest ≡ (got ++ cond b (t ∷ []) []) ++ rest
append-cond true t got rest = rw append_assoc
append-cond false t got rest = rw append-nil

grants-bounded :
    (a : String) (now : ℕ) (es : List (ℕ × String)) (got : List ℕ) (r : RateLimiter)
    → IsMonotone now es
    → IsFair r.max_per_minute now got (stamps r a)
    → (b : ℕ) → in_window b (got ++ grants a es r) ≤ r.max_per_minute
unfolding grants
grants-bounded a now [] got r mono fair b = rw append-nil (fair.bounded b)
grants-bounded a now ((t, c) ∷ es) got r mono fair b =
    let r' = (try_acquire t c r).0 in
    let fair' = try_acquire-IsFair a c now t got r mono.0 fair in
    let kept = try_acquire-max t c r in
    let rest = grants-bounded a t es (got ++ slot t c a r) r' mono.1 (rw kept fair') b in
    rw append-cond (rw kept at rest)

-- Whatever the order in which agents come to their rounds, as long as the clock does not go back,
-- every minute holds at most `max_per_minute` of the slots that one agent gets from a new limiter.
pub grants-le_max :
    (a : String) (max now : ℕ) (es : List (ℕ × String))
    → IsMonotone now es
    → (b : ℕ) → in_window b (grants a es (record { max_per_minute = max; timestamps = [] })) ≤ max
unfolding stamps in_window
grants-le_max a max now es mono =
    grants-bounded a now es [] (record { max_per_minute = max; timestamps = [] }) mono
      (record { past = tt; stamps_past = tt; same = λ b le. refl; bounded = λ b. omega arith })
