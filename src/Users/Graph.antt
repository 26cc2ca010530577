-- ===== src/Users/Graph.antt =====
-- What the calls that follow and block promise: a graph of follows and blocks between users, without
-- rows and ids. `active` tells the accounts that can be followed or blocked.
use rideway_api.Prelude.{
  ℕ, ◌≡◌, sym, ap, ◌∙◌, inl, inr, Bool, true, false, not, ◌&&◌, ◌||◌, ◌==◌, if◌then◌else◌, arith,
  Bool-cases, eq_of_==,
}
use rideway_api.Action.{
  Outcome, done, raised, state_of, not_found, forbidden, conflict, bad_request,
}

pub record Graph : Type 0 where
  pub follows : ℕ → ℕ → Bool
  pub blocks : ℕ → ℕ → Bool

-- The calls.
pub data Call : Type 0 where
  follow unfollow block unblock : (user other : ℕ) → Call

abbrev pub joined : (a b : ℕ) → (ℕ → ℕ → Bool) → ℕ → ℕ → Bool
joined a b r x y = (a == x && b == y) || r x y

abbrev pub parted : (a b : ℕ) → (ℕ → ℕ → Bool) → ℕ → ℕ → Bool
parted a b r x y = r x y && not (a == x && b == y)

module _ (active : ℕ → Bool) where
  -- What a call answers, and the graph that it leaves.
  abbrev pub answer : Call → Graph → Outcome Graph (Unit {0})
  answer (follow a b) g =
      if a == b
      then raised (bad_request "You cannot follow yourself") g
      else if not (active b)
      then raised (not_found "User not found") g
      else if g.blocks a b || g.blocks b a
      then raised (forbidden "You cannot follow this user") g
      else if g.follows a b
      then raised (conflict "You are already following this user") g
      else done tt (record g { follows = joined a b g.follows })
  answer (unfollow a b) g =
      if g.follows a b
      then done tt (record g { follows = parted a b g.follows })
      else raised (not_found "You are not following this user") g
  answer (block a b) g =
      if a == b
      then raised (bad_request "You cannot block yourself") g
      else if not (active b)
      then raised (not_found "User not found") g
      else if g.blocks a b
      then raised (conflict "User is already blocked") g
      else done tt
          (record g { follows = parted b a (parted a b g.follows); blocks = joined a b g.blocks })
  answer (unblock a b) g =
      if g.blocks a b
      then done tt (record g { blocks = parted a b g.blocks })
      else raised (not_found "User is not blocked") g

-- Nobody follows or blocks themselves, and there is no follow where there is a block in either
-- direction.
pub record IsPeaceful (g : Graph) : Type 0 where
  pub no_self_follow : (a : ℕ) → g.follows a a ≡ false
  pub no_self_block : (a : ℕ) → g.blocks a a ≡ false
  pub apart : (a b : ℕ) → g.follows a b ≡ true → (g.blocks a b || g.blocks b a) ≡ false

module _ (g : Graph) (peace : IsPeaceful g) (a b : ℕ) where
  joined-IsPeaceful :
      (a == b) ≡ false
      → (g.blocks a b || g.blocks b a) ≡ false
      → IsPeaceful (record g { follows = joined a b g.follows })
  joined-IsPeaceful other unblocked = record {
    no_self_follow = λ x. ground (arith, other, peace.no_self_follow x);
    no_self_block = peace.no_self_block;
    apart = λ x y h. elim (Bool-cases (a == x && b == y)) [
      | inl t ↦
          ap (λ (k : ℕ). g.blocks k y || g.blocks y k) (sym (eq_of_== a x (ground (arith, t))))
          ∙ ap (λ (k : ℕ). g.blocks a k || g.blocks k a) (sym (eq_of_== b y (ground (arith, t))))
          ∙ unblocked
      | inr f ↦ peace.apart x y (ground (arith, f, h))
    ];
  }

  parted-IsPeaceful : IsPeaceful (record g { follows = parted a b g.follows })
  parted-IsPeaceful = record {
    no_self_follow = λ x. ground (arith, peace.no_self_follow x);
    no_self_block = peace.no_self_block;
    apart = λ x y h. peace.apart x y (ground (arith, h));
  }

  blocked-IsPeaceful :
      (a == b) ≡ false
      → IsPeaceful
          (record { follows = parted b a (parted a b g.follows); blocks = joined a b g.blocks })
  blocked-IsPeaceful other = record {
    no_self_follow = λ x. ground (arith, peace.no_self_follow x);
    no_self_block = λ x. ground (arith, other, peace.no_self_block x);
    apart = λ x y h. ground (arith, h, peace.apart x y (ground (arith, h)));
  }

  unblocked-IsPeaceful : IsPeaceful (record g { blocks = parted a b g.blocks })
  unblocked-IsPeaceful = record {
    no_self_follow = peace.no_self_follow;
    no_self_block = λ x. ground (arith, peace.no_self_block x);
    apart = λ x y h. ground (arith, peace.apart x y h);
  }

pub answer-IsPeaceful :
    (active : ℕ → Bool) (c : Call) (g : Graph)
    → IsPeaceful g
    → IsPeaceful (state_of (answer active c g))
answer-IsPeaceful active (follow a b) g peace = elim (Bool-cases (a == b)) [
  | inl t ↦ rw t peace
  | inr other ↦ elim (Bool-cases (active b)) [
    | inr f ↦ rw (other, f) peace
    | inl t ↦ elim (Bool-cases (g.blocks a b || g.blocks b a)) [
      | inl blocked ↦ rw (other, t, blocked) peace
      | inr free ↦ elim (Bool-cases (g.follows a b)) [
        | inl had ↦ rw (other, t, free, had) peace
        | inr new ↦ rw (other, t, free, new) (joined-IsPeaceful g peace a b other free)
      ]
    ]
  ]
]
answer-IsPeaceful active (unfollow a b) g peace = elim (Bool-cases (g.follows a b)) [
  | inl t ↦ rw t (parted-IsPeaceful g peace a b)
  | inr f ↦ rw f peace
]
answer-IsPeaceful active (block a b) g peace = elim (Bool-cases (a == b)) [
  | inl t ↦ rw t peace
  | inr other ↦ elim (Bool-cases (active b)) [
    | inr f ↦ rw (other, f) peace
    | inl t ↦ elim (Bool-cases (g.blocks a b)) [
      | inl had ↦ rw (other, t, had) peace
      | inr new ↦ rw (other, t, new) (blocked-IsPeaceful g peace a b other)
    ]
  ]
]
answer-IsPeaceful active (unblock a b) g peace = elim (Bool-cases (g.blocks a b)) [
  | inl t ↦ rw t (unblocked-IsPeaceful g peace a b)
  | inr f ↦ rw f peace
]
