-- ===== src/Text/Search.antt =====
-- What `strstr` finds: the occurrences of the needle in the text.
use smart_home_weather_monit.Base.{
  ℕ, suc, ◌≤◌, length, false, none, ◌≡◌, refl, ap, ◌∙◌, true, some, [], ◌∷◌, ◌++◌, arith,
  Bool-cases, inl, inr, ◌↔◌,
}
use smart_home_weather_monit.Text.{Bytes, starts_with, strstr, contains, str_eq}

-- The needle stands somewhere in the text.
abbrev pub Occurs : Bytes → Bytes → Type 0
Occurs needle hay = (before : Bytes) × (after : Bytes) × (hay ≡ before ++ (needle ++ after))

pub starts_with-append : (n rest : Bytes) → starts_with n (n ++ rest) ≡ true
unfolding starts_with
starts_with-append [] rest = refl
starts_with-append (x ∷ n) rest = ground (arith, starts_with-append n rest)

pub starts_with_split : (n h : Bytes) → starts_with n h ≡ true → (rest : Bytes) × (h ≡ n ++ rest)
unfolding starts_with
starts_with_split [] h e = (h, refl)
starts_with_split (x ∷ n) [] e = cc
starts_with_split (x ∷ n) (y ∷ h) e =
    let (rest, p) = starts_with_split n h (ground arith) in (rest, ground arith)

contains_here : (n after : Bytes) → contains (n ++ after) n ≡ true
unfolding contains
contains_here [] [] = refl
contains_here [] (x ∷ after) = refl
contains_here (x ∷ n) after = ground (arith, starts_with-append (x ∷ n) after)

contains_later : (x : ℕ) (h n : Bytes) → contains h n ≡ true → contains (x ∷ h) n ≡ true
unfolding contains
contains_later x h n e = ground arith

-- An occurrence is found.
pub contains_complete : (before n after : Bytes) → contains (before ++ (n ++ after)) n ≡ true
contains_complete [] n after = contains_here n after
contains_complete (x ∷ before) n after =
    contains_later x (before ++ (n ++ after)) n (contains_complete before n after)

contains_sound : (h n : Bytes) → contains h n ≡ true → Occurs n h
unfolding contains
contains_sound [] n e = let (rest, q) = starts_with_split n [] (ground arith) in ([], rest, q)
contains_sound (x ∷ h) n e = elim (Bool-cases (starts_with n (x ∷ h))) [
  | inl hit ↦ let (rest, q) = starts_with_split n (x ∷ h) hit in ([], rest, q)
  | inr miss ↦
      let (before, after, q) = contains_sound h n (ground arith) in
      (x ∷ before, after, ap (◌∷◌ x) q)
]

pub contains_iff : (h n : Bytes) → (contains h n ≡ true) ↔ Occurs n h
contains_iff h n = (
  contains_sound h n,
  λ (before, after, e). ap (λ t. contains t n) e ∙ contains_complete before n after,
)

pub str_eq_iff : (a b : Bytes) → (str_eq a b ≡ true) ↔ (a ≡ b)
unfolding str_eq
str_eq_iff [] [] = (λ e. refl, λ e. refl)
str_eq_iff [] (x ∷ b) = (λ e. cc, λ e. cc)
str_eq_iff (x ∷ a) [] = (λ e. cc, λ e. cc)
str_eq_iff (x ∷ a) (y ∷ b) = ground (arith, str_eq_iff a b)

-- So many bytes stand before the first occurrence of the needle.
abbrev pub First : Bytes → Bytes → ℕ → Type 0
First needle hay n =
    (before : Bytes) (after : Bytes) → hay ≡ before ++ (needle ++ after) → n ≤ length before

starts_with_occurs : (n hay after : Bytes) → hay ≡ n ++ after → starts_with n hay ≡ true
starts_with_occurs n hay after e = ap (starts_with n) e ∙ starts_with-append n after

First-later :
    (n h : Bytes) (x k : ℕ) → starts_with n (x ∷ h) ≡ false → First n h k → First n (x ∷ h) (suc k)
First-later n h x k miss f [] after e =
    let hit = starts_with_occurs n (x ∷ h) after e in absurd (ground (arith, miss, hit))
First-later n h x k miss f (y ∷ before) after e =
    let same : h ≡ before ++ (n ++ after) = ground (arith, e) in
    let l = f before after same in omega (arith, l)

-- `strstr` returns the needle at its first occurrence.
pub strstr-First :
    (h n : Bytes) {p : Bytes}
    → strstr h n ≡ some p
    → (before : Bytes) × (after : Bytes) × (h ≡ before ++ (n ++ after))
      × (p ≡ n ++ after)
      × First n h (length before)
unfolding strstr
strstr-First [] n {p} e =
    let (rest, q) = starts_with_split n [] (ground arith) in
    ([], rest, q, ground arith, λ b a f. omega arith)
strstr-First (x ∷ h) n {p} e = elim (Bool-cases (starts_with n (x ∷ h))) [
  | inl hit ↦
      let (rest, q) = starts_with_split n (x ∷ h) hit in
      ([], rest, q, ground arith, λ b a f. omega arith)
  | inr miss ↦
      let (before, after, q, r, f) = strstr-First h n {p = p} (ground arith) in
      (x ∷ before, after, ap (◌∷◌ x) q, r, First-later n h x (length before) miss f)
]

pub strstr-none : (h n : Bytes) → strstr h n ≡ none → ¬ Occurs n h
unfolding contains
strstr-none h n e o = let found = (contains_iff h n).1 o in cc
