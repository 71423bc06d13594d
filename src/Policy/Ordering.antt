-- ===== src/Policy/Ordering.antt =====
-- src/policy.rs, `list`: in which order an administrator is told of the proposals.
use glasir_control.Prelude.{
  ℕ, ◌+◌, ◌<◌, ◌≡◌, refl, sym, ◌⊎◌, inl, inr, Bool, true, false, Option, none, some, List, [], ◌∷◌,
  arith, ltb, leb, Bool-cases, and-true, ◌==◌, eq_iff, nat_eq, Bool_eq, list_eq, pair_eq,
}
use glasir_control.Text.{Text}
use glasir_control.Text.Order.{text_leb}
use glasir_control.Policy.{Summary, option_leb, newest_first, insert_sorted, sort_newest}

text_leb_total : (a b : Text) → text_leb a b ≡ false → text_leb b a ≡ true
unfolding text_leb
text_leb_total [] b h = cc h
text_leb_total (c ∷ a) [] h = refl
text_leb_total (c ∷ a) (d ∷ b) h = ground (arith, h, text_leb_total a b)

option_leb_total :
    {A : Type 0} (leb_of : A → A → Bool)
    → ((a b : A) → leb_of a b ≡ false → leb_of b a ≡ true)
    → (a b : Option A) → option_leb leb_of a b ≡ false
    → option_leb leb_of b a ≡ true
option_leb_total leb_of total none b h = cc h
option_leb_total leb_of total (some a) none h = refl
option_leb_total leb_of total (some a) (some b) h = total a b h

leb_total : (a b : ℕ) → leb a b ≡ false → leb b a ≡ true
leb_total a b h = ground (arith, h)

newest_first_total : (a b : Summary) → newest_first a b ≡ false → newest_first b a ≡ true
unfolding newest_first
newest_first_total a b h = ground (
  arith,
  h,
  option_leb_total leb leb_total a.created_at b.created_at,
  option_leb_total leb leb_total b.created_at a.created_at,
  option_leb_total text_leb text_leb_total a.id b.id,
)

-- Texts in lexicographic order of their characters.
abbrev pub LexLe : Text → Text → Type 0
LexLe [] t = Unit
LexLe (c ∷ s) [] = ⊥
LexLe (c ∷ s) (d ∷ t) = (c < d) ⊎ ((c ≡ d) × LexLe s t)

-- A missing id stands before every other.
abbrev pub IdLe : Option Text → Option Text → Type 0
IdLe none b = Unit
IdLe (some a) none = ⊥
IdLe (some a) (some b) = LexLe a b

-- When a proposal was made; one without a time counts as older than all.
abbrev pub time_key : Option ℕ → ℕ
time_key none = 0
time_key (some n) = n + 1

-- x was made later than y, or at the same time and then its id is not greater.
abbrev pub IsBefore : Summary → Summary → Type 0
IsBefore x y =
    (time_key y.created_at < time_key x.created_at)
    ⊎ ((time_key x.created_at ≡ time_key y.created_at) × IdLe x.id y.id)

-- Each summary stands before the next one.
abbrev pub IsSorted : List Summary → Type 0
IsSorted [] = Unit
IsSorted (x ∷ []) = Unit
IsSorted (x ∷ y ∷ ys) = IsBefore x y × IsSorted (y ∷ ys)

text_leb-LexLe : (a b : Text) → text_leb a b ≡ true → LexLe a b
unfolding text_leb
text_leb-LexLe [] b h = tt
text_leb-LexLe (c ∷ a) [] h = cc h
text_leb-LexLe (c ∷ a) (d ∷ b) h = elim (Bool-cases (ltb c d)) [
  | inl less ↦ inl (ground arith)
  | inr more ↦
      let (same, later) = and-true (c == d) (text_leb a b) (rw more at h) in
      inr ((eq_iff c d).0 same, text_leb-LexLe a b later)
]

id_le : (a b : Option Text) → option_leb text_leb a b ≡ true → IdLe a b
id_le none b h = tt
id_le (some a) none h = cc h
id_le (some a) (some b) h = text_leb-LexLe a b h

time_le :
    (a b : Option ℕ)
    → option_leb leb a b ≡ true
    → (time_key a < time_key b) ⊎ (time_key a ≡ time_key b)
time_le none none h = inr refl
time_le none (some b) h = inl (omega arith)
time_le (some a) none h = cc h
time_le (some a) (some b) h = ground arith

time_lt : (a b : Option ℕ) → option_leb leb a b ≡ false → time_key b < time_key a
time_lt none b h = cc h
time_lt (some a) none h = omega arith
time_lt (some a) (some b) h = ground arith

newest_first-IsBefore : (x y : Summary) → newest_first x y ≡ true → IsBefore x y
unfolding newest_first
newest_first-IsBefore x y h = elim (Bool-cases (option_leb leb x.created_at y.created_at)) [
  | inr later ↦ inl (time_lt x.created_at y.created_at later)
  | inl early ↦
      let (back, ids) =
        and-true (option_leb leb y.created_at x.created_at) (option_leb text_leb x.id y.id)
          (rw early at h) in
      elim (time_le y.created_at x.created_at back) [
        | inl less ↦ inl less
        | inr same ↦ inr (sym same, id_le x.id y.id ids)
      ]
]

-- Of two summaries, one stands before the other.
not-IsBefore : (x y : Summary) → newest_first x y ≡ false → IsBefore y x
not-IsBefore x y h = newest_first-IsBefore y x (newest_first_total x y h)

insert_sorted-IsSorted :
    (x : Summary) (ys : List Summary) → IsSorted ys → IsSorted (insert_sorted x ys)
unfolding insert_sorted
insert_sorted-IsSorted x [] h = tt
insert_sorted-IsSorted x (y ∷ []) h = elim (Bool-cases (newest_first x y)) [
  | inl before ↦ rw before (newest_first-IsBefore x y before, tt)
  | inr after ↦ rw after (not-IsBefore x y after, tt)
]
insert_sorted-IsSorted x (y ∷ z ∷ zs) (first, more) = elim (Bool-cases (newest_first x y)) [
  | inl before ↦ rw before (newest_first-IsBefore x y before, (first, more))
  | inr after ↦
      let rest = insert_sorted-IsSorted x (z ∷ zs) more in
      elim (Bool-cases (newest_first x z)) [
        | inl here ↦
            rw (after, here) (not-IsBefore x y after, (newest_first-IsBefore x z here, more))
        | inr there ↦ rw (after, there) (first, rw there at rest)
      ]
]

pub sort_newest-IsSorted : (xs : List Summary) → IsSorted (sort_newest xs)
unfolding sort_newest
sort_newest-IsSorted [] = tt
sort_newest-IsSorted (x ∷ xs) = insert_sorted-IsSorted x (sort_newest xs) (sort_newest-IsSorted xs)
