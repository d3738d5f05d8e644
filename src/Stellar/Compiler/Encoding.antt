-- ===== src/Stellar/Compiler/Encoding.antt =====
-- What the compiler writes for a jump and for a number is what the machine reads.
use native.Mathlib.Nat.{pow-suc}
use nova64_os.Base.{ap₂, ℕ, zero, suc, ◌+◌, ◌*◌, ◌/◌, ◌%◌, ◌^◌, ◌<◌, ◌≡◌, arith, ap, ◌∙◌}
use nova64_os.Base.{List, some, length, length-set, set, get_elem?, bit_or}
use nova64_os.Base.{get_elem?-set_self, get_elem?-set_ne}
use nova64_os.Bits.Xor.{bit_or_above}
use nova64_os.Stellar.Vm.{Vm, fetch, fetch_bytes, fetch_word, fetch_address, pure}
use nova64_os.Stellar.Vm.Primitives.{bind-some}
use nova64_os.Stellar.Vm.Run.{At, fetch-at}
use nova64_os.Stellar.Compiler.State.{bytes_of, patch16}

-- The results of two reads that agree.
same_read :
    (vm : Vm) {a b n m : ℕ}
    → a ≡ b
    → n ≡ m
    → pure a (record vm { pc = n }) ≡ pure b (record vm { pc = m })
same_read vm e f = ap₂ (λ (a n : ℕ). pure a (record vm { pc = n })) e f

-- The machine reads back the number whose `n` bytes stand at its counter, and stops behind them.
fetch_bytes-bytes_of :
    (n w : ℕ) (vm : Vm)
    → w < 256 ^ n
    → At vm.code vm.pc (bytes_of n w)
    → fetch_bytes n vm ≡ some (w, record vm { pc = vm.pc + n })
unfolding fetch_bytes bytes_of
fetch_bytes-bytes_of zero w vm fits at = same_read vm (omega arith) (omega arith)
fetch_bytes-bytes_of (suc n) w vm fits (low, rest) =
    let one = record vm { pc = vm.pc + 1 } in
    let power = pow-suc 256 n in
    bind-some fetch _ vm (fetch-at vm (w % 256) low)
    ∙ bind-some (fetch_bytes n) _ one (fetch_bytes-bytes_of n (w / 256) one (omega arith) rest)
    ∙ same_read vm (omega arith) (omega arith)

-- A number below 2 ^ 64 that `compile` writes as an operand is the one that `vm_run` reads there:
-- the machine at its first byte reads the number and stands after its eight bytes.
pub fetch_word-bytes_of :
    (w : ℕ) (vm : Vm)
    → w < 2 ^ 64
    → At vm.code vm.pc (bytes_of 8 w)
    → fetch_word vm ≡ some (w, record vm { pc = vm.pc + 8 })
unfolding fetch_word
fetch_word-bytes_of w vm fits at = fetch_bytes-bytes_of 8 w vm fits at

-- An address below 2 ^ 16 that `patch16` fills in at a place inside the code is the one that a jump
-- of the machine reads there, and the code keeps its length.
pub fetch_address-patch16 :
    (out : List ℕ) (pos val : ℕ) (vm : Vm)
    → pos + 1 < length out
    → val < 2 ^ 16
    → vm.code ≡ patch16 out pos val
    → vm.pc ≡ pos
    → (fetch_address vm ≡ some (val, record vm { pc = pos + 2 })) × (length vm.code ≡ length out)
unfolding fetch_address patch16
fetch_address-patch16 out pos val vm inside fits code_is pc_is =
    let low = val % 256 in
    let high = val / 256 % 256 in
    let written = set out pos low in
    let long : length written ≡ length out = length-set out pos low in
    let at_low : get_elem? vm.code vm.pc ≡ some low =
      ap₂ get_elem? code_is pc_is
      ∙ get_elem?-set_ne written (pos + 1) pos high (omega arith)
      ∙ get_elem?-set_self out pos low (omega arith) in
    let at_high : get_elem? vm.code (vm.pc + 1) ≡ some high =
      ap₂ get_elem? code_is (ap (λ (n : ℕ). n + 1) pc_is)
      ∙ get_elem?-set_self written (pos + 1) high (omega arith) in
    let one = record vm { pc = vm.pc + 1 } in
    let joined : bit_or low (high * 2 ^ 8) ≡ low + high * 2 ^ 8 =
      bit_or_above 8 high low (omega arith) in
    (
      bind-some fetch _ vm (fetch-at vm low at_low)
          ∙ bind-some fetch _ one (fetch-at one high at_high)
          ∙ same_read vm (omega arith) (omega arith),
      ap length code_is ∙ length-set written (pos + 1) high ∙ long,
    )
