-- ===== src/Drivers/Disk.antt =====
-- src/drivers/disk/ata.c. What the ports of the disk give is a list for each port, and what is
-- written to them is a list, the first write first.
use nova64_os.Base.{
  ℕ, zero, suc, ◌+◌, ◌*◌, ◌%◌, ◌^◌, ◌≡◌, ◌==◌, if◌then◌else◌, List, [], ◌∷◌, ◌++◌, take, drop,
  Option, none, some, bit_and, bit_or,
}
use nova64_os.Bits.{u8, ◌>>>◌}

infixl 5 ◌>>=◌
abbrev pub ◌>>=◌ : {A B : Type 0} → Option A → (A → Option B) → Option B
none >>= f = none
some a >>= f = f a

pub record Disk : Type 0 where
  pub status : List ℕ
  pub words : List ℕ
  pub written : List (ℕ × ℕ)

-- `while(inb(ATA_PRIMARY_COMM_STAT) & 0x80)`: what the port gives next, or none where it gives no more.
unfoldable pub ata_wait_bsy : List ℕ → Option (List ℕ)
ata_wait_bsy [] = none
ata_wait_bsy (s ∷ rest) =
    let later = ata_wait_bsy rest in if bit_and s 0x80 == 0 then some rest else later

-- `while(!(inb(ATA_PRIMARY_COMM_STAT) & 0x08))`.
unfoldable pub ata_wait_drq : List ℕ → Option (List ℕ)
ata_wait_drq [] = none
ata_wait_drq (s ∷ rest) =
    let later = ata_wait_drq rest in if bit_and s 0x08 == 0 then later else some rest

-- The command for `count` sectors from `lba`.
unfoldable pub read_command : ℕ → ℕ → List (ℕ × ℕ)
read_command lba count =
    (0x1F6, u8 (bit_or 0xE0 (bit_and (lba >>> 24) 0x0F)))
    ∷ (0x1F2, count)
    ∷ (0x1F3, u8 lba)
    ∷ (0x1F4, u8 (lba >>> 8))
    ∷ (0x1F5, u8 (lba >>> 16))
    ∷ (0x1F7, 0x20)
    ∷ []

-- The outer loop, with the sectors left: the words that go to the buffer, and the disk.
unfoldable pub read_loop : ℕ → Disk → Option (List ℕ × Disk)
unfolding ata_wait_bsy ata_wait_drq
read_loop zero d = some ([], d)
read_loop (suc n) d = do
  free ← ata_wait_bsy d.status
  ready ← ata_wait_drq free
  (buffer, d') ← read_loop n (record d { status = ready; words = drop 256 d.words })
  some (take 256 d.words ++ buffer, d')

unfoldable pub read_sectors : ℕ → ℕ → Disk → Option (List ℕ × Disk)
unfolding read_command read_loop
read_sectors lba count d = do
  free ← ata_wait_bsy d.status
  read_loop count (record d { status = free; written = d.written ++ read_command lba count })

-- A status that serves `n` sectors: for each, the disk is free and then ready for the transfer, after
-- any number of other answers.
abbrev pub Serves : ℕ → List ℕ → Type 0
Serves zero status = Unit
Serves (suc n) status =
    (free ready : List ℕ) × (ata_wait_bsy status ≡ some free)
    × (ata_wait_drq free ≡ some ready)
    × Serves n ready

-- What a read leaves: the words that it took, in order, and the rest.
abbrev Reads : ℕ → Disk → Option (List ℕ × Disk) → Type 0
Reads n d result =
    (d' : Disk) × (result ≡ some (take (256 * n) d.words, d'))
    × (d'.words ≡ drop (256 * n) d.words)
    × (d'.written ≡ d.written)

-- The byte that a port was given last.
abbrev pub sent : ℕ → List (ℕ × ℕ) → ℕ → ℕ
sent port [] before = before
sent port ((p, v) ∷ rest) before = sent port rest (if p == port then v else before)

-- The sector that the disk is asked for: 28 bits from four ports.
abbrev pub asked_sector : List (ℕ × ℕ) → ℕ
asked_sector ports =
    sent 0x1F3 ports 0
    + sent 0x1F4 ports 0 * 2 ^ 8
    + sent 0x1F5 ports 0 * 2 ^ 16
    + sent 0x1F6 ports 0 % 16 * 2 ^ 24
