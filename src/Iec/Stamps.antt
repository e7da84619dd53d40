-- ===== src/Iec/Stamps.antt =====
-- internal/iec/utc.go: how much of a time its stamp keeps.
use prp_sim.Base.{ℕ, ◌+◌, ◌*◌, ◌/◌, ◌%◌, ◌^◌, ◌≤◌, ◌<◌, ◌≡◌, some, arith}
use prp_sim.Iec.{encode_utc_time, decode_utc_time}

seconds_bytes :
    (epoch : ℕ)
    → epoch < 2 ^ 32
    → (epoch / 2 ^ 24 % 256) * 2 ^ 24
        + (epoch / 2 ^ 16 % 256) * 2 ^ 16
        + (epoch / 2 ^ 8 % 256) * 2 ^ 8
        + epoch % 256
      ≡ epoch
seconds_bytes epoch h = omega arith

fraction_bytes :
    (frac : ℕ)
    → frac < 2 ^ 24
    → (frac / 2 ^ 16 % 256) * 2 ^ 16 + (frac / 2 ^ 8 % 256) * 2 ^ 8 + frac % 256 ≡ frac
fraction_bytes frac h = omega arith

-- Both divisions round down.
rounded :
    (ns : ℕ)
    → ns < 1_000_000_000
    → let frac = ns * 2 ^ 24 / 1_000_000_000 in
      (frac < 2 ^ 24)
      × (frac * 1_000_000_000 / 2 ^ 24 ≤ ns)
      × (ns ≤ frac * 1_000_000_000 / 2 ^ 24 + 60)
rounded ns h = (omega arith, omega arith, omega arith)

-- A time of the years 1970 to 2106 comes back from its stamp with the same second, and early by at
-- most 60 nanoseconds, never late.
pub decode_utc_time-encode_utc_time :
    (epoch ns : ℕ)
    → epoch < 2 ^ 32
    → ns < 1_000_000_000
    → (ns' : ℕ) × (decode_utc_time (encode_utc_time epoch ns) ≡ some (epoch, ns'))
      × (ns' ≤ ns)
      × (ns ≤ ns' + 60)
unfolding decode_utc_time encode_utc_time
decode_utc_time-encode_utc_time epoch ns h k =
    let (small, early, close) = rounded ns k in
    (
      ns * 2 ^ 24 / 1_000_000_000 * 1_000_000_000 / 2 ^ 24,
      rw (seconds_bytes epoch h, fraction_bytes (ns * 2 ^ 24 / 1_000_000_000) small),
      early,
      close,
    )
