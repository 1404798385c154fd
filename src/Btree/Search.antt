-- ===== src/Btree/Search.antt =====
-- src/btree/node.cpp, `Node::lower_bound`: the
-- search in one node, given the keys that `key_at` reads from its slots. Slots are 16-bit numbers.
use key_v_db.Common.{
  ◌&&◌, ℕ, zero, suc, ◌+◌, ◌-◌, ◌/◌, ◌%◌, ◌^◌, ◌<◌, ◌≤◌, ◌≡◌, inl, inr, refl, ap, ◌∙◌, Bool, true,
  false, [], ◌∷◌, ltb, if◌then◌else◌, arith, Bool-cases, ltb→lt, nltb→le, Eq-cases, nat_eq,
}
use key_v_db.Common.Bytes.{Bytes, bytes_eq}

-- The `<` of two string_views: bytes are compared as unsigned numbers, a prefix comes first.
unfoldable pub bytes_ltb : Bytes → Bytes → Bool
bytes_ltb a [] = false
bytes_ltb [] (y ∷ ys) = true
bytes_ltb (x ∷ xs) (y ∷ ys) =
    let rest = bytes_ltb xs ys in if ltb x y then true else if ltb y x then false else rest

module _ (key_at : ℕ → Bytes) (key : Bytes) where
  -- The loop, on fuel.
  unfoldable pub search : ℕ → ℕ → ℕ → ℕ
  search zero lo hi = lo
  search (suc fuel) lo hi =
      let mid = (lo + (hi - lo) / 2) % 2 ^ 16 in
      let below = bytes_ltb (key_at mid) key in
      let rest =
        search fuel (if below then (mid + 1) % 2 ^ 16 else lo) (if below then hi else mid) in
      if ltb lo hi then rest else lo

  unfoldable pub lower_bound : ℕ → ℕ
  lower_bound num_keys = search num_keys 0 num_keys

  -- What the loop keeps: slots before `lo` have smaller keys, those from `hi` on do not.
  record Between (num_keys lo hi : ℕ) : Type 0 where
    pub ordered : lo ≤ hi
    pub inside : hi ≤ num_keys
    pub smaller : (i : ℕ) → i < lo → bytes_ltb (key_at i) key ≡ true
    pub others : (i : ℕ) → hi ≤ i → i < num_keys → bytes_ltb (key_at i) key ≡ false

-- The keys of the slots increase.
abbrev pub IsSorted : (ℕ → Bytes) → ℕ → Type 0
IsSorted key_at num_keys = (i j : ℕ) → i < j → j < num_keys → bytes_ltb (key_at i) (key_at j) ≡ true

pub bytes_ltb_trans :
    (a b c : Bytes) → bytes_ltb a b ≡ true → bytes_ltb b c ≡ true → bytes_ltb a c ≡ true
unfolding bytes_ltb
bytes_ltb_trans a [] c h k = cc
bytes_ltb_trans a (y ∷ b) [] h k = cc
bytes_ltb_trans [] (y ∷ b) (z ∷ c) h k = refl
bytes_ltb_trans (x ∷ a) (y ∷ b) (z ∷ c) h k = ground (arith, bytes_ltb_trans a b c, h, k)

module _ (key_at : ℕ → Bytes) (key : Bytes) (num_keys : ℕ) (sorted : IsSorted key_at num_keys)
    (small : num_keys < 2 ^ 16) where
  meet :
      (lo hi : ℕ) → Between key_at key num_keys lo hi → hi ≤ lo → Between key_at key num_keys lo lo
  meet lo hi b le = record {
    ordered = omega arith;
    inside = omega (arith, b.ordered, b.inside);
    smaller = b.smaller;
    others = λ i h h'. b.others i (omega (arith, h, le)) h';
  }

  step_up :
      (lo hi mid : ℕ)
      → Between key_at key num_keys lo hi
      → mid < hi
      → bytes_ltb (key_at mid) key ≡ true
      → Between key_at key num_keys (mid + 1) hi
  step_up lo hi mid b less below = record {
    ordered = omega (arith, less);
    inside = b.inside;
    smaller = λ i h. elim (Eq-cases i mid) [
      | inl same ↦ ap (λ n. bytes_ltb (key_at n) key) same.0 ∙ below
      | inr other ↦
          bytes_ltb_trans (key_at i) (key_at mid) key
            (sorted i mid (omega (arith, h, other.0)) (omega (arith, less, b.inside))) below
    ];
    others = b.others;
  }

  step_down :
      (lo hi mid : ℕ)
      → Between key_at key num_keys lo hi
      → lo ≤ mid
      → mid < hi
      → bytes_ltb (key_at mid) key ≡ false
      → Between key_at key num_keys lo mid
  step_down lo hi mid b more less above = record {
    ordered = more;
    inside = omega (arith, less, b.inside);
    smaller = b.smaller;
    others = λ i h h'. elim (Eq-cases i mid) [
      | inl same ↦ ap (λ n. bytes_ltb (key_at n) key) same.0 ∙ above
      | inr other ↦ elim (Bool-cases (bytes_ltb (key_at i) key)) [
        | inr no' ↦ no'
        | inl yes' ↦ cc (
          above,
          bytes_ltb_trans (key_at mid) (key_at i) key (sorted mid i (omega (arith, h, other.0)) h')
              yes',
        )
      ]
    ];
  }

  -- The loop narrows the range down to one place, given as much fuel as the range is long.
  search_lem :
      (fuel lo hi : ℕ)
      → Between key_at key num_keys lo hi
      → hi ≤ lo + fuel
      → Between key_at key num_keys (search key_at key fuel lo hi) (search key_at key fuel lo hi)
  unfolding search
  search_lem zero lo hi b le = meet lo hi b (omega (arith, le))
  search_lem (suc fuel) lo hi b le = elim (Bool-cases (ltb lo hi)) [
    | inr done' ↦ rw done' (meet lo hi b (nltb→le lo hi done'))
    | inl more ↦
        let lt = ltb→lt lo hi more in
        let mid : ℕ = (lo + (hi - lo) / 2) % 2 ^ 16 in
        let high : mid < hi = omega (arith, lt, b.inside, small) in
        let low : lo ≤ mid = omega (arith, lt, b.inside, small) in
        let next : (mid + 1) % 2 ^ 16 ≡ mid + 1 = omega (arith, high, b.inside, small) in
        elim (Bool-cases (bytes_ltb (key_at mid) key)) [
          | inl below ↦
              rw (more, below, next)
                (search_lem fuel (mid + 1) hi (step_up lo hi mid b high below)
                  (omega (arith, le, low)))
          | inr above ↦
              rw (more, above)
                (search_lem fuel lo mid (step_down lo hi mid b low high above)
                  (omega (arith, le, high)))
        ]
  ]

  -- `lower_bound` on a sorted node with fewer than 2 ^ 16 slots, also on an empty one, is at most the
  -- number of slots, and the slots before it are exactly those with smaller keys.
  pub lower_bound_lem :
      (i : ℕ)
      → (lower_bound key_at key num_keys ≤ num_keys)
        × ((ltb i num_keys && bytes_ltb (key_at i) key) ≡ ltb i (lower_bound key_at key num_keys))
  unfolding lower_bound
  lower_bound_lem i =
      let b = search_lem num_keys 0 num_keys whole (omega arith) in
      (
        b.inside,
        elim (Bool-cases (ltb i (lower_bound key_at key num_keys))) [
          | inl before ↦
              let smaller = b.smaller i (ltb→lt i _ before) in
              let lt = ltb→lt i _ before in rw (before, smaller) (ground (arith, lt, b.inside))
          | inr behind ↦ elim (Bool-cases (ltb i num_keys)) [
            | inl inside ↦
                let larger = b.others i (nltb→le i _ behind) (ltb→lt i _ inside) in
                rw (behind, inside, larger) refl
            | inr outside ↦ rw (behind, outside) refl
          ]
        ],
      )
    where
      whole : Between key_at key num_keys 0 num_keys
      whole = record {
        ordered = omega arith;
        inside = omega arith;
        smaller = λ j l. absurd (omega (arith, l));
        others = λ j l l'. absurd (omega (arith, l, l'));
      }
