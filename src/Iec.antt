-- ===== src/Iec.antt =====
-- internal/iec/utc.go and sv.go: the time stamp of GOOSE frames and the sample count of SV frames.
pub mod Stamps
pub mod Ber
pub mod Walk
pub mod Goose
pub mod Sv
use prp_sim.Base.{
  ℕ, ◌+◌, ◌*◌, ◌/◌, ◌%◌, ◌^◌, not, Option, none, some, [], ◌∷◌, ◌==◌, if◌then◌else◌, length, Bytes,
  byte_at, to_u16,
}

-- A time is its seconds since 1970 and its nanoseconds. Earlier times are left out: the code writes
-- their seconds modulo 2 ^ 32.
unfoldable pub encode_utc_time : ℕ → ℕ → Bytes
encode_utc_time epoch ns =
    let frac = ns * 2 ^ 24 / 1_000_000_000 in
    (epoch / 2 ^ 24 % 256)
    ∷ (epoch / 2 ^ 16 % 256)
    ∷ (epoch / 2 ^ 8 % 256)
    ∷ (epoch % 256)
    ∷ (frac / 2 ^ 16 % 256)
    ∷ (frac / 2 ^ 8 % 256)
    ∷ (frac % 256)
    ∷ 0x80
    ∷ []

-- `none` is the zero time.
unfoldable pub decode_utc_time : Bytes → Option (ℕ × ℕ)
decode_utc_time b =
    if not (length b == 8)
    then none
    else (let epoch =
          byte_at b 0 * 2 ^ 24 + byte_at b 1 * 2 ^ 16 + byte_at b 2 * 2 ^ 8 + byte_at b 3 in
        let frac = byte_at b 4 * 2 ^ 16 + byte_at b 5 * 2 ^ 8 + byte_at b 6 in
        some (epoch, frac * 1_000_000_000 / 2 ^ 24))

-- `(smpCnt + 1) % 4096` on uint16.
unfoldable pub sv_state : ℕ → ℕ
sv_state smp_cnt = to_u16 (smp_cnt + 1) % 4096
