-- ===== src/Db/SkipList/Links.antt =====
-- The loops of Insert: which links the new node gets, and which are led to it.
use quas_db.Base.{
  ℕ, zero, suc, ◌+◌, ◌≤◌, ◌<◌, ◌≡◌, ◌≢◌, inl, inr, refl, sym, ap, ◌∙◌, false, ◌==◌, Bool-cases,
  Option, some, arith,
}
use quas_db.Db.SkipList.{
  SkipList, at, max_levels, random_height_loop, random_height, raise_prev, set_next, link_levels,
}
use quas_db.Db.SkipList.Find.{at-same, at-other}
use quas_db.Util.Random.{random_next}

random_height_loop_fits :
    (rounds h rnd : ℕ)
    → (h ≤ (random_height_loop rounds h rnd).0) × ((random_height_loop rounds h rnd).0 ≤ h + rounds)
unfolding random_height_loop
random_height_loop_fits zero h rnd = (omega arith, omega arith)
random_height_loop_fits (suc rounds) h rnd =
    ground (arith, random_height_loop_fits rounds (h + 1) (random_next rnd))

-- A new node has from one to twelve levels.
pub random_height_fits :
    (rnd : ℕ) → (1 ≤ (random_height rnd).0) × ((random_height rnd).0 ≤ max_levels)
unfolding random_height
random_height_fits rnd = random_height_loop_fits 11 1 rnd

pub raise_prev_below : (n from l : ℕ) (prev : ℕ → ℕ) → l < from → raise_prev n from prev l ≡ prev l
unfolding raise_prev
raise_prev_below zero from l prev h = refl
raise_prev_below (suc n) from l prev h =
    raise_prev_below n (from + 1) l (at from 0 prev) (omega arith)
    ∙ at-other l from 0 prev (ground arith)

pub raise_prev_head :
    (n from l : ℕ) (prev : ℕ → ℕ) → from ≤ l → l < from + n → raise_prev n from prev l ≡ 0
unfolding raise_prev
raise_prev_head zero from l prev h k = absurd (omega arith)
raise_prev_head (suc n) from l prev h k = elim (Bool-cases (l == from)) [
  | inl here ↦
      let same : l ≡ from = ground arith in
      raise_prev_below n (from + 1) l (at from 0 prev) (omega arith)
      ∙ (ap (at from 0 prev) same ∙ at-same from 0 prev)
  | inr further ↦ raise_prev_head n (from + 1) l (at from 0 prev) (ground arith) (omega arith)
]

module _ {K : Type 0} where
  set_next-same :
      (s : SkipList K) (p l : ℕ) (link : Option ℕ) → (set_next s p l link).next p l ≡ link
  unfolding set_next
  set_next-same s p l link =
      ap (λ (f : ℕ → Option ℕ). f l) (at-same p (at l link (s.next p)) s.next)
      ∙ at-same l link (s.next p)

  set_next-other :
      (s : SkipList K) (p l q m : ℕ) (link : Option ℕ)
      → (q ≡ p → m ≢ l)
      → (set_next s p l link).next q m ≡ s.next q m
  unfolding set_next
  set_next-other s p l q m link other = elim (Bool-cases (q == p)) [
    | inl here ↦
        let same : q ≡ p = ground arith in
        rw same (
          ap (λ (f : ℕ → Option ℕ). f m) (at-same p (at l link (s.next p)) s.next)
          ∙ at-other m l link (s.next p) (not_equal m l (other same)))
    | inr elsewhere ↦
        ap (λ (f : ℕ → Option ℕ). f m) (at-other q p (at l link (s.next p)) s.next elsewhere)
  ]
    where
      not_equal : (a b : ℕ) → a ≢ b → (a == b) ≡ false
      not_equal a b h = ground arith

  -- All but the links of the levels from `from` on are as before.
  pub record Linked (s s' : SkipList K) (prev : ℕ → ℕ) (x from levels : ℕ) : Type 0 where
    pub same_key : s'.key ≡ s.key
    pub same_height : s'.height ≡ s.height
    pub same_allocated : s'.allocated ≡ s.allocated
    pub same_max_height : s'.max_height ≡ s.max_height
    pub new_link : (l : ℕ) → from ≤ l → l < from + levels → s'.next x l ≡ s.next (prev l) l
    pub prev_link : (l : ℕ) → from ≤ l → l < from + levels → s'.next (prev l) l ≡ some x
    pub old_link :
        (q l : ℕ)
        → (from ≤ l → l < from + levels → (q ≢ x) × (q ≢ prev l))
        → s'.next q l ≡ s.next q l

  link_level-Linked :
      (prev : ℕ → ℕ) (x from : ℕ) (s : SkipList K)
      → prev from ≢ x
      → Linked s
          (set_next (set_next s x from (s.next (prev from) from)) (prev from) from (some x))
          prev
          x
          from
          1
  link_level-Linked prev x from s apart = record {
    same_key = unfold set_next in refl;
    same_height = unfold set_next in refl;
    same_allocated = unfold set_next in refl;
    same_max_height = unfold set_next in refl;
    new_link = λ l a b.
        let here : l ≡ from = omega arith in
        rw here (
          set_next-other forward (prev from) from x from (some x) (λ e. absurd (apart (sym e)))
          ∙ set_next-same s x from (s.next (prev from) from));
    prev_link = λ l a b.
        let here : l ≡ from = omega arith in
        rw here (set_next-same forward (prev from) from (some x));
    old_link = λ q l free.
        set_next-other forward (prev from) from q l (some x)
          (λ e h. (free (omega (arith, h)) (omega (arith, h))).1 (e ∙ ap prev (sym h)))
        ∙ set_next-other s x from q l (s.next (prev from) from)
            (λ e h. (free (omega (arith, h)) (omega (arith, h))).0 e);
  }
    where
      forward : SkipList K
      forward = set_next s x from (s.next (prev from) from)

  pub link_levels-Linked :
      (n from : ℕ) (prev : ℕ → ℕ) (x : ℕ) (s : SkipList K)
      → ((l : ℕ) → from ≤ l → l < from + n → prev l ≢ x)
      → Linked s (link_levels n from prev x s) prev x from n
  unfolding link_levels
  link_levels-Linked zero from prev x s apart = record {
    same_key = refl;
    same_height = refl;
    same_allocated = refl;
    same_max_height = refl;
    new_link = λ l a b. absurd (omega arith);
    prev_link = λ l a b. absurd (omega arith);
    old_link = λ q l free. refl;
  }
  link_levels-Linked (suc n) from prev x s apart =
      let s1 : SkipList K =
        set_next (set_next s x from (s.next (prev from) from)) (prev from) from (some x) in
      joined n from prev x s s1 (link_levels n (from + 1) prev x s1)
        (link_level-Linked prev x from s (apart from (omega arith) (omega arith)))
        (link_levels-Linked n (from + 1) prev x s1 (λ l a b. apart l (omega arith) (omega arith)))
        apart
    where
      joined :
          (n from : ℕ) (prev : ℕ → ℕ) (x : ℕ) (s s1 s2 : SkipList K)
          → Linked s s1 prev x from 1
          → Linked s1 s2 prev x (from + 1) n
          → ((l : ℕ) → from ≤ l → l < from + suc n → prev l ≢ x)
          → Linked s s2 prev x from (suc n)
      joined n from prev x s s1 s2 one rest apart = record {
        same_key = rest.same_key ∙ one.same_key;
        same_height = rest.same_height ∙ one.same_height;
        same_allocated = rest.same_allocated ∙ one.same_allocated;
        same_max_height = rest.same_max_height ∙ one.same_max_height;
        new_link = λ l a b. elim (Bool-cases (l == from)) [
          | inl here ↦
              let e : l ≡ from = ground arith in
              rest.old_link x l (λ c d. absurd (omega (arith, e)))
              ∙ one.new_link l a (omega (arith, e))
          | inr further ↦
              rest.new_link l (ground arith) (omega arith)
              ∙ one.old_link (prev l) l (λ c d. absurd (ground arith))
        ];
        prev_link = λ l a b. elim (Bool-cases (l == from)) [
          | inl here ↦
              let e : l ≡ from = ground arith in
              rest.old_link (prev l) l (λ c d. absurd (omega (arith, e)))
              ∙ one.prev_link l a (omega (arith, e))
          | inr further ↦ rest.prev_link l (ground arith) (omega arith)
        ];
        old_link = λ q l free.
            rest.old_link q l (λ c d. free (omega arith) (omega arith))
            ∙ one.old_link q l (λ c d. free c (omega arith));
      }
