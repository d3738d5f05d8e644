-- ===== src/Drivers/Rtc.antt =====
-- `get_time` of src/drivers/RTC/rtcdriver.c, from the bytes that the clock's registers give.
use nova64_os.Base.{ℕ, ◌+◌, ◌-◌, ◌*◌, ◌/◌, ◌%◌, ◌≤◌, ◌<◌, ◌≡◌, arith, ltb, leb, bit_and}
use nova64_os.Bits.Xor.{bit_and_nibble}
use nova64_os.Base.{if◌then◌else◌, ap, ap₂, ◌∙◌}

-- `(r & 0x0F) + ((r / 16) * 10)`.
unfoldable pub from_bcd : ℕ → ℕ
from_bcd r = bit_and r 0x0F + r / 16 * 10

-- `current_tz_offset`: so many hours ahead or behind.
pub data Offset : Type 0 where
  ahead behind : ℕ → Offset

-- `raw_h + current_tz_offset` brought back once by 24 hours.
unfoldable pub adjusted_h : ℕ → Offset → ℕ
adjusted_h raw_h (ahead n) = if leb 24 (raw_h + n) then raw_h + n - 24 else raw_h + n
adjusted_h raw_h (behind n) = if ltb raw_h n then raw_h + 24 - n else raw_h - n

pub record Time : Type 0 where
  pub h : ℕ
  pub m : ℕ
  pub s : ℕ

unfoldable pub get_time : ℕ → ℕ → ℕ → Offset → Time
unfolding from_bcd adjusted_h
get_time rh rm rs offset = record {
  h = adjusted_h (from_bcd rh) offset;
  m = from_bcd rm;
  s = from_bcd rs;
}

-- The byte in which the clock holds a number below 100.
abbrev pub to_bcd : ℕ → ℕ
to_bcd n = n / 10 * 16 + n % 10

-- The hours that the offset stands for, modulo 24.
abbrev pub hours : Offset → ℕ
hours (ahead n) = n
hours (behind n) = 24 - n

abbrev pub magnitude : Offset → ℕ
magnitude (ahead n) = n
magnitude (behind n) = n

from_bcd-to_bcd : (n : ℕ) → n < 100 → from_bcd (to_bcd n) ≡ n
unfolding from_bcd
from_bcd-to_bcd n lt = let e = bit_and_nibble (to_bcd n) in omega arith

adjusted_h_lem :
    (raw : ℕ) (offset : Offset)
    → raw < 24
    → magnitude offset ≤ 24
    → adjusted_h raw offset ≡ (raw + hours offset) % 24
unfolding adjusted_h
adjusted_h_lem raw (ahead n) lt small = ground arith
adjusted_h_lem raw (behind n) lt small = ground arith

-- From the registers of a clock that stands at `h`:`m`:`s`, an offset of at most 24 hours gives the
-- minutes and seconds as they are and the hour moved by the offset around the day.
pub get_time_lem :
    (h m s : ℕ) (offset : Offset)
    → h < 24
    → m < 60
    → s < 60
    → magnitude offset ≤ 24
    → get_time (to_bcd h) (to_bcd m) (to_bcd s) offset
      ≡ record { h = (h + hours offset) % 24; m = m; s = s }
unfolding get_time
get_time_lem h m s offset hh hm hs small =
    let hour = from_bcd-to_bcd h (omega arith) in
    let minute = from_bcd-to_bcd m (omega arith) in
    let second = from_bcd-to_bcd s (omega arith) in
    ap
      (λ (k : ℕ). record {
        h = adjusted_h k offset;
        m = from_bcd (to_bcd m);
        s = from_bcd (to_bcd s);
      })
      hour
    ∙ ap₂ (λ (k l : ℕ). record { h = adjusted_h h offset; m = k; s = l }) minute second
    ∙ ap (λ (k : ℕ). record { h = k; m = m; s = s }) (adjusted_h_lem h offset hh small)
