-- ===== src/Firmware/Protocol.antt =====
-- The Modbus requests that the fake ClearCore answers
-- (src/finishing_line/sim/fake_clearcore.py: `_handle_pdu`). A request and an answer are lists of
-- bytes; `none` is an exception, after which the tables are as the request had left them.
use finishing_line.Common.{
  Bool, List, Option, [], arith, false, if◌then◌else◌, leb, ltb, none, refl, some, suc, true, zero,
  ℕ, ◌%◌, ◌&&◌, ◌*◌, ◌+◌, ◌/◌, ◌<◌, ◌==◌, ◌||◌, ◌∷◌, ◌≡◌,
}
use finishing_line.Firmware.Edges.{poke-same}
use finishing_line.Firmware.Types.{Firmware, Table, poke}

abbrev pub table_size : ℕ
table_size = 1024

abbrev pub word : ℕ → ℕ → ℕ
word high low = high * 256 + low

-- `struct.pack(">H", v)`; a value of more than 16 bits is a struct.error.
abbrev pub then_bytes : ℕ → Option (List ℕ) → Option (List ℕ)
then_bytes v none = none
then_bytes v (some rest) = if ltb 65535 v then none else some (v / 256 ∷ v % 256 ∷ rest)

unfoldable pub pack_words : List ℕ → Option (List ℕ)
pack_words [] = some []
pack_words (v ∷ values) = then_bytes v (pack_words values)

-- `table[addr : addr + count]`, which ends with the table.
unfoldable pub slice : Table → (addr count : ℕ) → List ℕ
slice table addr zero = []
slice table addr (suc count) =
    let rest = slice table (addr + 1) count in if ltb addr table_size then table addr ∷ rest else []

-- The bits of a byte, the first one lowest.
unfoldable pub pack_byte : ℕ → List ℕ → ℕ × List ℕ
pack_byte zero bits = (0, bits)
pack_byte (suc n) [] = (0, [])
pack_byte (suc n) (bit ∷ bits) =
    let (high, rest) = pack_byte n bits in ((if bit == 0 then 0 else 1) + 2 * high, rest)

unfoldable pub pack_bits : ℕ → List ℕ → List ℕ
unfolding pack_byte
pack_bits zero bits = []
pack_bits (suc nbytes) bits = let (byte, rest) = pack_byte 8 bits in byte ∷ pack_bits nbytes rest

-- A request's address and its second word, after the function code.
pub data Request : Type 0 where
  short : Request
  words : (address value : ℕ) → List ℕ → Request

abbrev pub parse : List ℕ → Request
parse (a ∷ b ∷ c ∷ d ∷ rest) = Request.words (word a b) (word c d) rest
parse _ = Request.short

-- `bytes([fc, n])` wants numbers below 256.
abbrev pub headed : (code size : ℕ) → Option (List ℕ) → Option (List ℕ)
headed code size none = none
headed code size (some body) = if ltb 255 size then none else some (code ∷ size ∷ body)

abbrev pub read_bits : (code : ℕ) → Table → (addr count : ℕ) → Option (List ℕ)
read_bits code table addr count =
    let nbytes = (count + 7) / 8 in
    headed code nbytes (some (pack_bits nbytes (slice table addr count)))

abbrev pub read_words : (code : ℕ) → Table → (addr count : ℕ) → Option (List ℕ)
read_words code table addr count = headed code (count * 2) (pack_words (slice table addr count))

-- A write of a coil or of a register, whose answer repeats the request.
abbrev pub write_coil : (addr value : ℕ) → Firmware → Firmware × Option (List ℕ)
write_coil addr value f =
    if ltb addr table_size
    then (
      record f { coils = poke addr (if value == 65280 then 1 else 0) f.coils },
      some (5 ∷ addr / 256 ∷ addr % 256 ∷ value / 256 ∷ value % 256 ∷ []),
    )
    else (f, none)

abbrev pub write_register : (addr value : ℕ) → Firmware → Firmware × Option (List ℕ)
write_register addr value f =
    if ltb addr table_size
    then (
      record f { holding = poke addr value f.holding },
      some (6 ∷ addr / 256 ∷ addr % 256 ∷ value / 256 ∷ value % 256 ∷ []),
    )
    else (f, none)

-- The loop of a write of several registers, over the bytes after their count; `false` is an exception.
unfoldable pub write_values : (addr count : ℕ) → List ℕ → Table → Table × Bool
write_values addr zero bytes table = (table, true)
write_values addr (suc count) (high ∷ low ∷ bytes) table =
    let rest = write_values (addr + 1) count bytes (poke addr (word high low) table) in
    if ltb addr table_size then rest else (table, false)
write_values addr (suc count) _ table = (table, false)

abbrev pub wrote_values : (addr count : ℕ) → Firmware → Table × Bool → Firmware × Option (List ℕ)
wrote_values addr count f (table, true) = (
  record f { holding = table },
  some (16 ∷ addr / 256 ∷ addr % 256 ∷ count / 256 ∷ count % 256 ∷ []),
)
wrote_values addr count f (table, false) = (record f { holding = table }, none)

-- The byte that says how many bytes follow is skipped, whatever it is.
abbrev pub write_registers : (addr count : ℕ) → List ℕ → Firmware → Firmware × Option (List ℕ)
write_registers addr count [] f = wrote_values addr count f (write_values addr count [] f.holding)
write_registers addr count (size ∷ bytes) f =
    wrote_values addr count f (write_values addr count bytes f.holding)

abbrev pub answer_to : (code : ℕ) → Request → Firmware → Firmware × Option (List ℕ)
answer_to code Request.short f = (f, none)
answer_to code (Request.words addr value rest) f =
    if code == 1
    then (f, read_bits 1 f.coils addr value)
    else if code == 2
    then (f, read_bits 2 f.discrete addr value)
    else if code == 3
    then (f, read_words 3 f.holding addr value)
    else if code == 4
    then (f, read_words 4 f.input_regs addr value)
    else if code == 5
    then write_coil addr value f
    else if code == 6
    then write_register addr value f
    else write_registers addr value rest f

abbrev pub is_served : ℕ → Bool
is_served code = leb 1 code && leb code 6 || code == 16

-- `fc | 0x80` for a code that is not served.
abbrev pub with_bit_7 : ℕ → ℕ
with_bit_7 code = if code / 128 % 2 == 1 then code else code + 128

unfoldable pub handle_pdu : List ℕ → Firmware → Firmware × Option (List ℕ)
unfolding slice pack_words pack_bits write_values
handle_pdu [] f = (f, none)
handle_pdu (code ∷ pdu) f =
    if is_served code then answer_to code (parse pdu) f else (f, some (with_bit_7 code ∷ 1 ∷ []))

abbrev pub bytes_of : ℕ → List ℕ → List ℕ
bytes_of v rest = v / 256 ∷ v % 256 ∷ rest

word-split : (v : ℕ) → word (v / 256) (v % 256) ≡ v
word-split v = omega arith

within : (a size : ℕ) → a < size → ltb a size ≡ true
within a size h = ground arith

fits : (v size : ℕ) → v < size + 1 → ltb size v ≡ false
fits v size h = ground arith

-- A register that is written is read back as it was written: the answer to a read of one register
-- after a write to it has the value's two bytes, and a write changes no other register.
pub write-read :
    (addr value : ℕ) (f : Firmware)
    → addr < table_size
    → value < 65536
    → (g : Firmware) × (handle_pdu (6 ∷ bytes_of addr (bytes_of value [])) f
        ≡ (g, some (6 ∷ bytes_of addr (bytes_of value []))))
      × (handle_pdu (3 ∷ bytes_of addr (bytes_of 1 [])) g ≡ (g, some (3 ∷ 2 ∷ bytes_of value [])))
      × ((other : ℕ) → (addr == other) ≡ false → g.holding other ≡ f.holding other)
unfolding handle_pdu slice pack_words
write-read addr value f a v =
    let inside : ltb addr table_size ≡ true = within addr table_size a in
    (
      record f { holding = poke addr value f.holding },
      (rw (word-split addr, word-split value, inside) refl),
      (rw (word-split addr, inside, poke-same addr value f.holding, fits value 65535 v) refl),
      λ other e. rw e refl,
    )
