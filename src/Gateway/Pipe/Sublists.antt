-- ===== src/Gateway/Pipe/Sublists.antt =====
-- Lists of texts with some left out.
use smart_home_weather_monit.Base.{◌≡◌, refl, ap, List, [], ◌∷◌, ◌++◌, ◌⊎◌, inl, inr}
use smart_home_weather_monit.Text.{Bytes}

-- The first list is the second one with some texts left out.
abbrev pub Sub : List Bytes → List Bytes → Type 0
Sub [] ys = Unit
Sub (x ∷ xs) [] = ⊥
Sub (x ∷ xs) (y ∷ ys) = ((x ≡ y) × Sub xs ys) ⊎ Sub (x ∷ xs) ys

pub Sub-skip : (xs ys : List Bytes) (y : Bytes) → Sub xs ys → Sub xs (y ∷ ys)
Sub-skip [] ys y h = tt
Sub-skip (x ∷ xs) ys y h = inr h

Sub-last : (ys : List Bytes) (z : Bytes) → Sub (z ∷ []) (ys ++ z ∷ [])
Sub-last [] z = inl (refl, tt)
Sub-last (y ∷ ys) z = inr (Sub-last ys z)

-- One more at the end of both.
pub Sub-snoc : (xs ys : List Bytes) (z : Bytes) → Sub xs ys → Sub (xs ++ z ∷ []) (ys ++ z ∷ [])
Sub-snoc [] ys z h = Sub-last ys z
Sub-snoc (x ∷ xs) [] z h = absurd h
Sub-snoc (x ∷ xs) (y ∷ ys) z (inl (e, h)) = inl (e, Sub-snoc xs ys z h)
Sub-snoc (x ∷ xs) (y ∷ ys) z (inr h) = inr (Sub-snoc (x ∷ xs) ys z h)

pub Sub-prefix : (xs rest ys : List Bytes) → Sub (xs ++ rest) ys → Sub xs ys
Sub-prefix [] rest ys h = tt
Sub-prefix (x ∷ xs) rest [] h = absurd h
Sub-prefix (x ∷ xs) rest (y ∷ ys) (inl (e, h)) = inl (e, Sub-prefix xs rest ys h)
Sub-prefix (x ∷ xs) rest (y ∷ ys) (inr h) = inr (Sub-prefix (x ∷ xs) rest ys h)

-- The texts that are not empty.
abbrev pub visible : List Bytes → List Bytes
visible [] = []
visible ([] ∷ ts) = visible ts
visible ((c ∷ t) ∷ ts) = (c ∷ t) ∷ visible ts

pub visible-append : (xs ys : List Bytes) → visible (xs ++ ys) ≡ visible xs ++ visible ys
visible-append [] ys = refl
visible-append ([] ∷ xs) ys = visible-append xs ys
visible-append ((c ∷ t) ∷ xs) ys = ap (◌∷◌ (c ∷ t)) (visible-append xs ys)

-- The last text kept.
abbrev pub newest : List Bytes → Bytes
newest [] = []
newest (t ∷ []) = t
newest (t ∷ u ∷ ts) = newest (u ∷ ts)

pub newest-snoc : (ts : List Bytes) (t : Bytes) → newest (ts ++ t ∷ []) ≡ t
newest-snoc [] t = refl
newest-snoc (u ∷ []) t = refl
newest-snoc (u ∷ v ∷ ts) t = newest-snoc (v ∷ ts) t
