-- ===== src/Netwrap.antt =====
-- 1_服务器_客户端/1_客户端/netwrap/wrap.c: the wrappers of the socket calls, which report errors.
pub mod Writing
mod Tests
use smart_home_weather_monit.Base.{
  ℕ, zero, suc, ◌+◌, ◌-◌, ◌≤◌, ◌<◌, ◌≡◌, ◌≢◌, refl, ap, ◌∙◌, Bool, true, false, Option, none, some,
  List, [], ◌∷◌, ◌++◌, arith, ltb, leb, ◌==◌, if◌then◌else◌, length, take, drop,
}
use smart_home_weather_monit.Text.{Bytes, bytes}

-- What a wrapper returns, and what it prints on the way.
pub record Returned : Type 0 where
  pub value : Option ℕ  -- `none` is -1
  pub message : Option Bytes

abbrev returns : Option ℕ → Returned
returns v = record { value = v; message = none }

abbrev pub report_if_failed : Bytes → Option ℕ → Returned
report_if_failed msg none = record { value = none; message = some msg }
report_if_failed msg (some n) = returns (some n)

-- `Write` with a buffer that is not NULL, over what the calls of `write` return: the bytes that went
-- out, and the result. `left` is what is still to be written.
pub record Written : Type 0 where
  pub output : Bytes
  pub total : Option ℕ

-- The loop. Where the list of results ends `write` has not returned yet: no result.
unfoldable pub write_loop : List (Option ℕ) → Bytes → ℕ → Option Written
write_loop [] [] total = some (record { output = []; total = some total })
write_loop [] (c ∷ cs) total = none
write_loop (r ∷ rs) [] total = some (record { output = []; total = some total })
write_loop (none ∷ rs) (c ∷ cs) total = some (record { output = []; total = none })
write_loop (some n ∷ rs) (c ∷ cs) total =
    let rest = write_loop rs (drop n (c ∷ cs)) (total + n) in
    elim rest [ none ↦ none | some w ↦ some (record w { output = take n (c ∷ cs) ++ w.output }) ]

unfoldable pub write_all : List (Option ℕ) → Option Bytes → Option Written
unfolding write_loop
write_all results none = some (record { output = []; total = none })
write_all results (some buf) = write_loop results buf 0

-- `Read`
unfoldable pub read_once : Bool → Option ℕ → Returned
read_once false result = returns none
read_once true result = report_if_failed (bytes "read() error") result

-- `Bind`
unfoldable pub bind_socket : Option ℕ → Returned
bind_socket ret = report_if_failed (bytes "bind() error") ret

-- `Listen`
unfoldable pub listen_socket : Option ℕ → Returned
listen_socket ret = report_if_failed (bytes "listen() error") ret

-- `Accept`
unfoldable pub accept_socket : Option ℕ → Returned
accept_socket ret = report_if_failed (bytes "accept() error") ret

-- `Connect`
unfoldable pub connect_socket : Option ℕ → Returned
connect_socket ret = report_if_failed (bytes "connect() error") ret

-- `Socket`
unfoldable pub open_socket : Option ℕ → Returned
open_socket ret = report_if_failed (bytes "socket() error") ret

-- `Setsockopt`
unfoldable pub set_option : Option ℕ → Returned
set_option ret = report_if_failed (bytes "setsockopt() error") ret

-- `Select`
unfoldable pub select_ready : Option ℕ → Returned
select_ready none = record { value = none; message = some (bytes "select() failed") }
select_ready (some zero) = record {
  value = some zero;
  message = some (bytes "select() timeout.\n");
}
select_ready (some (suc n)) = returns (some (suc n))
