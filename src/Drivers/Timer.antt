-- ===== src/Drivers/Timer.antt =====
-- src/drivers/timer/pit.c. The counter `timer_ticks` is 32 bits.
use nova64_os.Base.{
  ℕ, suc, ◌+◌, ◌-◌, ◌/◌, ◌%◌, ◌^◌, ◌≤◌, ◌<◌, ◌≡◌, arith, ap, ◌∙◌, ltb, ltb→lt, lt→ltb,
  if◌then◌else◌, List, [], ◌∷◌, Bool-cases, inl, inr, Option, none, some, bit_and,
}
use nova64_os.Bits.{u32, u8, ◌>>>◌}

unfoldable pub timer_handler : ℕ → ℕ
timer_handler timer_ticks = u32 (timer_ticks + 1)

-- The ports and the bytes that are written to them, in order.
unfoldable pub init_timer : ℕ → List (ℕ × ℕ)
init_timer frequency =
    let divisor = 1193182 / frequency in
    (0x43, 0x36)
    ∷ (0x40, u8 (bit_and divisor 0xFF))
    ∷ (0x40, u8 (bit_and (divisor >>> 8) 0xFF))
    ∷ []

-- What wakes the processor from `hlt`.
pub data Interrupt : Type 0 where
  timer keyboard : Interrupt

unfoldable pub wake : Interrupt → ℕ → ℕ
unfolding timer_handler
wake timer timer_ticks = timer_handler timer_ticks
wake keyboard timer_ticks = timer_ticks

-- `while (timer_ticks < eticks)`: each round takes the next interrupt. The counter and the interrupts
-- that are left, or none where the loop still waits when they have all come.
unfoldable pub wait_until : ℕ → ℕ → List Interrupt → Option (ℕ × List Interrupt)
unfolding wake
wait_until eticks timer_ticks [] = if ltb timer_ticks eticks then none else some (timer_ticks, [])
wait_until eticks timer_ticks (i ∷ rest) =
    let later = wait_until eticks (wake i timer_ticks) rest in
    if ltb timer_ticks eticks then later else some (timer_ticks, i ∷ rest)

unfoldable pub sleep : ℕ → ℕ → List Interrupt → Option (ℕ × List Interrupt)
unfolding wait_until
sleep ms timer_ticks interrupts = wait_until (u32 (timer_ticks + ms / 10)) timer_ticks interrupts

abbrev pub ticks : List Interrupt → ℕ
ticks [] = 0
ticks (timer ∷ rest) = suc (ticks rest)
ticks (keyboard ∷ rest) = ticks rest

-- The wait from `t` ends when `eticks - t` ticks have come.
abbrev Ends : ℕ → ℕ → List Interrupt → Type 0
Ends eticks t interrupts =
    (rest : List Interrupt) × (wait_until eticks t interrupts ≡ some (eticks, rest))
    × (ticks interrupts ≡ ticks rest + (eticks - t))

woken :
    (eticks t : ℕ) (i : Interrupt) (rest : List Interrupt)
    → eticks < 2 ^ 32
    → t < eticks
    → eticks - t ≤ ticks (i ∷ rest)
    → ((u : ℕ) → u ≤ eticks → eticks - u ≤ ticks rest → Ends eticks u rest)
    → Ends eticks t (i ∷ rest)
unfolding wait_until wake timer_handler
woken eticks t timer rest small lt enough ends =
    let counted : (t + 1) % 2 ^ 32 ≡ t + 1 = omega arith in
    let (left, reached, count) = ends (t + 1) (omega arith) (omega arith) in
    rw (lt→ltb t eticks lt)
      (left, ap (λ (u : ℕ). wait_until eticks u rest) counted ∙ reached, omega arith)
woken eticks t keyboard rest small lt enough ends =
    let (left, reached, count) = ends t (omega arith) enough in
    rw (lt→ltb t eticks lt) (left, reached, count)

wait_until_lem :
    (eticks t : ℕ) (interrupts : List Interrupt)
    → eticks < 2 ^ 32
    → t ≤ eticks
    → eticks - t ≤ ticks interrupts
    → Ends eticks t interrupts
unfolding wait_until
wait_until_lem eticks t [] small le enough =
    let same : t ≡ eticks = omega arith in ([], ground (arith, same), omega arith)
wait_until_lem eticks t (i ∷ rest) small le enough = elim (Bool-cases (ltb t eticks)) [
  | inl waits ↦
      woken eticks t i rest small (ltb→lt t eticks waits) enough
        (λ u le enough. wait_until_lem eticks u rest small le enough)
  | inr over ↦
      let same : t ≡ eticks = ground arith in
      rw over (i ∷ rest, ap (λ (n : ℕ). some (n, i ∷ rest)) same, omega arith)
]

-- Where the counter does not pass 2^32, `sleep` ends after exactly `ms / 10` ticks of the timer, as
-- soon as so many come, whatever keys come between them.
pub sleep_lem :
    (ms t : ℕ) (interrupts : List Interrupt)
    → t + ms / 10 < 2 ^ 32
    → ms / 10 ≤ ticks interrupts
    → (rest : List Interrupt) × (sleep ms t interrupts ≡ some (t + ms / 10, rest))
      × (ticks interrupts ≡ ticks rest + ms / 10)
unfolding sleep
sleep_lem ms t interrupts small enough =
    let target : (t + ms / 10) % 2 ^ 32 ≡ t + ms / 10 = omega arith in
    let (rest, reached, count) =
      wait_until_lem (t + ms / 10) t interrupts small (omega arith) (omega arith) in
    (rest, ap (λ (e : ℕ). wait_until e t interrupts) target ∙ reached, omega arith)
