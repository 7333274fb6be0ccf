-- ===== src/Gateway/Pipe/Tokens.antt =====
-- What the calls of `write` have put into the weather FIFO.
use smart_home_weather_monit.Base.{
  ◌≡◌, refl, ap, sym, ◌∙◌, Bool, true, false, List, [], ◌∷◌, ◌++◌, arith, append_assoc, append-nil,
}
use smart_home_weather_monit.Text.{Bytes, c_text}
use smart_home_weather_monit.Text.Buffers.{IsLine, c_text_lem}
use smart_home_weather_monit.Gateway.Fifo.{until_newline, until_newline-append}
use smart_home_weather_monit.Gateway.Delivery.{c_text-line}
use smart_home_weather_monit.Gateway.Pipe.{IsWritten}
use smart_home_weather_monit.Gateway.Pipe.Sublists.{Sub, Sub-prefix, visible}

-- What a call of `write` has put into the FIFO.
pub data Token : Type 0 where
  line : Bytes → Token
  newline : Token

abbrev pub flat : List Token → Bytes
flat [] = []
flat (line t ∷ ts) = t ++ flat ts
flat (newline ∷ ts) = b'\n' ∷ flat ts

abbrev pub lines : List Token → List Bytes
lines [] = []
lines (line t ∷ ts) = t ∷ lines ts
lines (newline ∷ ts) = lines ts

-- No two texts without a newline between them; a text is last only midway.
abbrev pub Alternates : List Token → Bool → Type 0
Alternates [] m = Unit
Alternates (newline ∷ ts) m = Alternates ts m
Alternates (line t ∷ []) m = IsWritten t × (m ≡ true)
Alternates (line t ∷ newline ∷ ts) m = IsWritten t × Alternates ts m
Alternates (line t ∷ line u ∷ ts) m = ⊥

pub flat-append : (ts us : List Token) → flat (ts ++ us) ≡ flat ts ++ flat us
flat-append [] us = refl
flat-append (line t ∷ ts) us =
    ap (λ r. t ++ r) (flat-append ts us) ∙ sym (append_assoc t (flat ts) (flat us))
flat-append (newline ∷ ts) us = ap (◌∷◌ b'\n') (flat-append ts us)

pub lines-append : (ts us : List Token) → lines (ts ++ us) ≡ lines ts ++ lines us
lines-append [] us = refl
lines-append (line t ∷ ts) us = ap (◌∷◌ t) (lines-append ts us)
lines-append (newline ∷ ts) us = lines-append ts us

pub Alternates-line :
    (ts : List Token) (t : Bytes)
    → Alternates ts false
    → IsWritten t
    → Alternates (ts ++ line t ∷ []) true
Alternates-line [] t h w = (w, refl)
Alternates-line (newline ∷ ts) t h w = Alternates-line ts t h w
Alternates-line (line u ∷ []) t h w = absurd (ground (arith, h.1))
Alternates-line (line u ∷ newline ∷ ts) t h w = (h.0, Alternates-line ts t h.1 w)
Alternates-line (line u ∷ line v ∷ ts) t h w = absurd h

pub Alternates-newline :
    (ts : List Token) → Alternates ts true → Alternates (ts ++ newline ∷ []) false
Alternates-newline [] h = tt
Alternates-newline (newline ∷ ts) h = Alternates-newline ts h
Alternates-newline (line u ∷ []) h = (h.0, tt)
Alternates-newline (line u ∷ newline ∷ ts) h = (h.0, Alternates-newline ts h.1)
Alternates-newline (line u ∷ line v ∷ ts) h = absurd h

-- The text that a read keeps of what was written.
abbrev pub first : List Token → Bytes
first [] = []
first (newline ∷ ts) = []
first (line t ∷ ts) = t

pub until_newline-IsLine : (t : Bytes) → IsLine t → until_newline t ≡ t
unfolding until_newline
until_newline-IsLine [] h = refl
until_newline-IsLine (c ∷ t) h = ground (arith, h.0, until_newline-IsLine t h.1)

pub first_lem :
    (ts : List Token) (m : Bool) → Alternates ts m → until_newline (c_text (flat ts)) ≡ first ts
unfolding until_newline c_text
first_lem [] m h = refl
first_lem (newline ∷ ts) m h = refl
first_lem (line t ∷ []) m h =
    ap (λ r. until_newline (c_text r)) (append-nil t)
    ∙ ap until_newline (c_text_lem t h.0.text)
    ∙ until_newline-IsLine t h.0.line
first_lem (line t ∷ newline ∷ ts) m h =
    ap until_newline (c_text-line t (flat ts) h.0.text)
    ∙ until_newline-append t (c_text (flat ts)) h.0.line
first_lem (line t ∷ line u ∷ ts) m h = absurd h

IsWritten-visible : (t : Bytes) → IsWritten t → visible (t ∷ []) ≡ t ∷ []
IsWritten-visible [] w = absurd (w.not_empty refl)
IsWritten-visible (c ∷ t) w = refl

take_line :
    (vis written rest : List Bytes) (t : Bytes)
    → IsWritten t
    → Sub (vis ++ t ∷ rest) written
    → Sub (vis ++ visible (t ∷ [])) written
take_line vis written rest t w h =
    rw (IsWritten-visible t w)
      (Sub-prefix (vis ++ t ∷ []) rest written (rw (append_assoc vis (t ∷ []) rest) h))

-- The first of the texts that wait is kept, and all others are dropped.
pub first-Sub :
    (ts : List Token) (m : Bool) (vis written : List Bytes)
    → Alternates ts m
    → Sub (vis ++ lines ts) written
    → Sub (vis ++ visible (first ts ∷ [])) written
first-Sub [] m vis written a h = h
first-Sub (newline ∷ ts) m vis written a h =
    rw (append-nil vis) (Sub-prefix vis (lines ts) written h)
first-Sub (line t ∷ []) m vis written a h = take_line vis written [] t a.0 h
first-Sub (line t ∷ newline ∷ ts) m vis written a h = take_line vis written (lines ts) t a.0 h
first-Sub (line t ∷ line u ∷ ts) m vis written a h = absurd a
