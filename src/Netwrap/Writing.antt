-- ===== src/Netwrap/Writing.antt =====
-- The loop of `Write`: how far it goes.
use smart_home_weather_monit.Base.{
  ℕ, zero, suc, ◌+◌, ◌-◌, ◌≤◌, ◌<◌, ◌≡◌, ◌⊎◌, refl, ap, ◌∙◌, inl, inr, Option, none, some, List, [],
  ◌∷◌, ◌++◌, arith, length, take, drop, length-drop, take-append-drop,
}
use smart_home_weather_monit.Text.{Bytes}
use smart_home_weather_monit.Netwrap.{Written, write_loop, write_all}

-- Every `write` fails, or takes at least one byte and at most those that are offered.
abbrev pub Progresses : List (Option ℕ) → ℕ → Type 0
Progresses [] left = Unit
Progresses (none ∷ rs) left = Unit
Progresses (some n ∷ rs) left = (0 < n) × (n ≤ left) × Progresses rs (left - n)

-- The bytes that are taken before the first failure.
abbrev pub taken : List (Option ℕ) → ℕ
taken [] = 0
taken (none ∷ rs) = 0
taken (some n ∷ rs) = n + taken rs

-- The loop writes all of the buffer, and returns the number of bytes; or it returns -1, and has written the
-- bytes before the first failure.
abbrev pub Writes : List (Option ℕ) → Bytes → ℕ → Option Written → Type 0
Writes rs buf whole r =
    (r ≡ some (record { output = buf; total = some whole }))
    ⊎ ((taken rs < length buf) × (r ≡ some (record { output = take (taken rs) buf; total = none })))

same_suc : (n k : ℕ) → suc (n + k) ≡ suc n + k
same_suc n k = omega arith

take-add : (n k : ℕ) (xs : Bytes) → take n xs ++ take k (drop n xs) ≡ take (n + k) xs
take-add zero k xs = let e : k ≡ 0 + k = omega arith in ap (λ m. take m xs) e
take-add (suc n) zero [] = ap (λ m. take m []) (same_suc n 0)
take-add (suc n) (suc k) [] = ap (λ m. take m []) (same_suc n (suc k))
take-add (suc n) k (x ∷ xs) =
    ap (◌∷◌ x) (take-add n k xs) ∙ ap (λ m. take m (x ∷ xs)) (same_suc n k)

-- The loop after a `write` of n bytes, if it ends as given from there on.
write_loop_step :
    (n : ℕ) (rs : List (Option ℕ)) (c : ℕ) (cs rest : Bytes) (total : ℕ) (status : Option ℕ)
    → write_loop rs (drop n (c ∷ cs)) (total + n) ≡ some (record { output = rest; total = status })
    → write_loop (some n ∷ rs) (c ∷ cs) total
      ≡ some (record { output = take n (c ∷ cs) ++ rest; total = status })
unfolding write_loop
write_loop_step n rs c cs rest total status e = ground (arith, e)

step-Writes :
    (n : ℕ) (rs : List (Option ℕ)) (c : ℕ) (cs : Bytes) (total whole : ℕ)
    → Writes rs (drop n (c ∷ cs)) whole (write_loop rs (drop n (c ∷ cs)) (total + n))
    → n ≤ length (c ∷ cs)
    → Writes (some n ∷ rs) (c ∷ cs) whole (write_loop (some n ∷ rs) (c ∷ cs) total)
step-Writes n rs c cs total whole (inl e) l = inl (
    write_loop_step n rs c cs (drop n (c ∷ cs)) total (some whole) e
    ∙ ap (λ b. some (record { output = b; total = some whole })) (take-append-drop n (c ∷ cs)))
step-Writes n rs c cs total whole (inr (k, e)) l = inr (
  omega (arith, length-drop n (c ∷ cs)),
  write_loop_step n rs c cs (take (taken rs) (drop n (c ∷ cs))) total none e
      ∙ ap (λ b. some (record { output = b; total = none })) (take-add n (taken rs) (c ∷ cs)),
)

write_loop-Writes :
    (rs : List (Option ℕ)) (buf : Bytes) (total whole : ℕ)
    → Progresses rs (length buf)
    → length buf ≤ length rs
    → total + length buf ≡ whole
    → Writes rs buf whole (write_loop rs buf total)
unfolding write_loop
write_loop-Writes [] [] total whole p l e = inl (ground arith)
write_loop-Writes [] (c ∷ cs) total whole p l e = absurd (omega arith)
write_loop-Writes (r ∷ rs) [] total whole p l e = inl (ground arith)
write_loop-Writes (none ∷ rs) (c ∷ cs) total whole p l e = inr (omega arith, refl)
write_loop-Writes (some n ∷ rs) (c ∷ cs) total whole (pos', fits, later) l e =
    step-Writes n rs c cs total whole
      (write_loop-Writes rs (drop n (c ∷ cs)) (total + n) whole (rw (length-drop n (c ∷ cs)) later)
        (rw (length-drop n (c ∷ cs)) (omega arith)) (rw (length-drop n (c ∷ cs)) (omega arith)))
      fits

-- If every `write` fails or makes progress, `Write` returns after at most one call for each byte: either the
-- bytes written are those of the buffer, in order, and the result is their number; or a `write` has failed,
-- the bytes written are those that were taken before it, less than the buffer, and the result is -1.
pub write_all-Writes :
    (rs : List (Option ℕ)) (buf : Bytes)
    → Progresses rs (length buf)
    → length buf ≤ length rs
    → Writes rs buf (length buf) (write_all rs (some buf))
unfolding write_all
write_all-Writes rs buf p l = write_loop-Writes rs buf 0 (length buf) p l (omega arith)
