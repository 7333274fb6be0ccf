-- ===== src/Text/Buffers.antt =====
-- Buffers that a NUL ends: what is in them after `recv` and `strncpy`.
use smart_home_weather_monit.Base.{
  ℕ, zero, suc, ◌≤◌, ◌<◌, ◌≡◌, ◌≢◌, refl, ap, ◌∙◌, none, some, [], ◌∷◌, ◌++◌, arith, length, take,
  drop, set, set-append_last, take_all, All, length-append, length-drop,
}
use smart_home_weather_monit.Text.{Bytes, received, text_of, c_text, strncpy}

-- A text: no byte of it is NUL.
abbrev pub IsText : Bytes → Type 0
IsText t = All (λ c. c ≢ 0) t

-- A text of one line.
abbrev pub IsLine : Bytes → Type 0
IsLine t = All (λ c. c ≢ b'\n') t

pub length-received : (n : ℕ) (msg : Bytes) → length (received n msg) ≡ n
unfolding received
length-received zero msg = refl
length-received (suc n) [] = ap suc (length-received n [])
length-received (suc n) (c ∷ cs) = ap suc (length-received n cs)

pub c_text_lem : (t : Bytes) → IsText t → c_text t ≡ t
unfolding c_text
c_text_lem [] h = refl
c_text_lem (c ∷ t) h = ground (arith, h.0, c_text_lem t h.1)

pub c_text-IsText : (t : Bytes) → IsText (c_text t)
unfolding c_text
c_text-IsText [] = tt
c_text-IsText (c ∷ t) = ground (arith, c_text-IsText t)

-- A message shorter than the buffer is followed by a NUL.
pub text_of-received :
    (n : ℕ) (msg : Bytes) → length msg < n → text_of (received n msg) ≡ some (c_text msg)
unfolding received text_of c_text
text_of-received zero msg h = absurd (omega arith)
text_of-received (suc n) [] h = refl
text_of-received (suc n) (c ∷ cs) h = ground (arith, text_of-received n cs)

-- A message without a NUL that fills the buffer leaves no place for one.
pub text_of-received_full :
    (n : ℕ) (msg : Bytes) → IsText msg → n ≤ length msg → text_of (received n msg) ≡ none
unfolding received text_of
text_of-received_full zero msg t h = refl
text_of-received_full (suc n) [] t h = absurd (omega arith)
text_of-received_full (suc n) (c ∷ cs) t h = ground (arith, t.0, text_of-received_full n cs t.1)

pub text_of-received-append :
    (n : ℕ) (t rest : Bytes) → IsText t → text_of (received n t ++ 0 ∷ rest) ≡ some (take n t)
unfolding received text_of
text_of-received-append zero t rest h = refl
text_of-received-append (suc n) [] rest h = refl
text_of-received-append (suc n) (c ∷ t) rest h =
    ground (arith, h.0, text_of-received-append n t rest h.1)

pub length-strncpy :
    (n : ℕ) (buffer t : Bytes) → n ≤ length buffer → length (strncpy n buffer t) ≡ length buffer
unfolding strncpy
length-strncpy n buffer t h =
    omega (
      arith,
      length-append (received n t) (drop n buffer),
      length-received n t,
      length-drop n buffer,
    )

drop-received-append : (n : ℕ) (t rest : Bytes) → drop n (received n t ++ rest) ≡ rest
unfolding received
drop-received-append zero t rest = refl
drop-received-append (suc n) [] rest = drop-received-append n [] rest
drop-received-append (suc n) (c ∷ t) rest = drop-received-append n t rest

-- `strncpy` leaves alone what stands behind its `n` bytes.
pub drop-strncpy : (n : ℕ) (buffer t : Bytes) → drop n (strncpy n buffer t) ≡ drop n buffer
unfolding strncpy
drop-strncpy n buffer t = drop-received-append n t (drop n buffer)

-- So a NUL behind them ends the text, which is the source cut at `n` bytes.
pub text_of-strncpy :
    (n : ℕ) (buffer t : Bytes) {rest : Bytes}
    → IsText t
    → drop n buffer ≡ 0 ∷ rest
    → text_of (strncpy n buffer t) ≡ some (take n t)
unfolding strncpy
text_of-strncpy n buffer t {rest} h e =
    ap (λ r. text_of (received n t ++ r)) e ∙ text_of-received-append n t rest h

-- A write into the last place of a buffer.
pub set_last :
    (n : ℕ) (xs : Bytes) (x v : ℕ) → length xs ≡ n → set (xs ++ x ∷ []) n v ≡ xs ++ v ∷ []
set_last n xs x v e = rw (← e) (set-append_last xs x v)

-- `strncpy(buffer, t, n); buffer[n] = 0` stores a text that fits.
pub text_of-set-strncpy :
    (n : ℕ) (buffer t : Bytes)
    → drop n buffer ≡ 0 ∷ []
    → IsText t
    → length t ≤ n
    → text_of (set (strncpy n buffer t) n 0) ≡ some t
unfolding strncpy
text_of-set-strncpy n buffer t e h l =
    ap (λ r. text_of (set (received n t ++ r) n 0)) e
    ∙ ap text_of (set_last n (received n t) 0 0 (length-received n t))
    ∙ text_of-received-append n t [] h
    ∙ ap some (take_all n t l)
