-- ===== src/Ghcb/MsrProtocol/Layout.antt =====
-- The layout of each kind of MSR value in msr_protocol.rs: the fields that are written are the
-- fields that are read.
use mushroom.Prelude.{ℕ, ◌+◌, ◌*◌, ◌/◌, ◌%◌, ◌^◌, ◌<◌, ◌≡◌, arith}
use mushroom.Prelude.BitField.{BitField}
use mushroom.Ghcb.MsrProtocol.{sev_information, gfn_of, encode, info}
use mushroom.Ghcb.MsrProtocol.Fields.{set_bits-add}

-- An aligned physical address of at most 52 bits.
abbrev pub IsFrame : ℕ → Type 0
IsFrame address = (address < 2 ^ 52) × (address % 0x1000 ≡ 0)

module _ (f : BitField) where
  open f use {get_bits, set_bits, get_bits_lem}

  -- Two fields: the info code and what is above it.
  two :
      (code x : ℕ) → code < 2 ^ 12 → x < 2 ^ 52 → set_bits (info f code) 12 52 x ≡ code + x * 2 ^ 12
  two code x h k = ground (arith, set_bits-add f 0 0 12 code, set_bits-add f (info f code) 12 52 x)

  pub two_fields :
      (code x : ℕ)
      → code < 2 ^ 12
      → x < 2 ^ 52
      → (get_bits (set_bits (info f code) 12 52 x) 0 12 ≡ code)
        × (get_bits (set_bits (info f code) 12 52 x) 12 52 ≡ x)
  two_fields code x h k = ground (
    arith,
    two code x h k,
    get_bits_lem (set_bits (info f code) 12 52 x) 0 12,
    get_bits_lem (set_bits (info f code) 12 52 x) 12 52,
  )

  pub gfn : (address : ℕ) → IsFrame address → gfn_of f address ≡ address / 0x1000
  gfn address h = ground (arith, get_bits_lem address 12 52)

  -- Four fields, as `sev_information` lays them out.
  pub sev_fields :
      (maximum minimum c_bit : ℕ)
      → maximum < 256
      → minimum < 256
      → c_bit < 256
      → let v = encode f (sev_information maximum minimum c_bit) in
        (get_bits v 0 12 ≡ 1)
        × (get_bits v 48 16 ≡ maximum)
        × (get_bits v 32 16 ≡ minimum)
        × (get_bits v 24 8 ≡ c_bit)
  unfolding encode
  sev_fields maximum minimum c_bit h k l =
      let v = info f 1 in
      let v1 = set_bits v 24 8 c_bit in
      let v2 = set_bits v1 32 16 minimum in
      let v3 = set_bits v2 48 16 maximum in
      omega (
        arith,
        set_bits-add f 0 0 12 1,
        set_bits-add f v 24 8 c_bit,
        set_bits-add f v1 32 16 minimum,
        set_bits-add f v2 48 16 maximum,
        get_bits_lem v3 0 12,
        get_bits_lem v3 48 16,
        get_bits_lem v3 32 16,
        get_bits_lem v3 24 8,
      )

  pub cpuid_fields :
      (code register x : ℕ)
      → code < 2 ^ 12
      → register < 4
      → x < 2 ^ 32
      → let v = set_bits (set_bits (set_bits (info f code) 12 18 0) 30 2 register) 32 32 x in
        (get_bits v 0 12 ≡ code)
        × (get_bits v 12 18 ≡ 0)
        × (get_bits v 30 2 ≡ register)
        × (get_bits v 32 32 ≡ x)
  cpuid_fields code register x h k l =
      let v = info f code in
      let v1 = set_bits v 12 18 0 in
      let v2 = set_bits v1 30 2 register in
      let v3 = set_bits v2 32 32 x in
      omega (
        arith,
        set_bits-add f 0 0 12 code,
        set_bits-add f v 12 18 0,
        set_bits-add f v1 30 2 register,
        set_bits-add f v2 32 32 x,
        get_bits_lem v3 0 12,
        get_bits_lem v3 12 18,
        get_bits_lem v3 30 2,
        get_bits_lem v3 32 32,
      )

  pub page_fields :
      (x operation : ℕ)
      → x < 2 ^ 40
      → operation < 16
      → let v = set_bits (set_bits (set_bits (info f 0x14) 12 40 x) 52 4 operation) 56 8 0 in
        (get_bits v 0 12 ≡ 0x14)
        × (get_bits v 12 40 ≡ x)
        × (get_bits v 52 4 ≡ operation)
        × (get_bits v 56 8 ≡ 0)
  page_fields x operation h k =
      let v = info f 0x14 in
      let v1 = set_bits v 12 40 x in
      let v2 = set_bits v1 52 4 operation in
      let v3 = set_bits v2 56 8 0 in
      omega (
        arith,
        set_bits-add f 0 0 12 0x14,
        set_bits-add f v 12 40 x,
        set_bits-add f v1 52 4 operation,
        set_bits-add f v2 56 8 0,
        get_bits_lem v3 0 12,
        get_bits_lem v3 12 40,
        get_bits_lem v3 52 4,
        get_bits_lem v3 56 8,
      )

  pub error_fields :
      (x : ℕ)
      → x < 2 ^ 32
      → let v = set_bits (set_bits (info f 0x15) 12 20 0) 32 32 x in
        (get_bits v 0 12 ≡ 0x15) × (get_bits v 12 20 ≡ 0) × (get_bits v 32 32 ≡ x)
  error_fields x h =
      let v = info f 0x15 in
      let v1 = set_bits v 12 20 0 in
      let v2 = set_bits v1 32 32 x in
      omega (
        arith,
        set_bits-add f 0 0 12 0x15,
        set_bits-add f v 12 20 0,
        set_bits-add f v1 32 32 x,
        get_bits_lem v2 0 12,
        get_bits_lem v2 12 20,
        get_bits_lem v2 32 32,
      )

  pub reason_fields :
      (x y : ℕ)
      → x < 16
      → y < 256
      → let v = set_bits (set_bits (info f 0x100) 12 4 x) 16 8 y in
        (get_bits v 0 12 ≡ 0x100) × (get_bits v 12 4 ≡ x) × (get_bits v 16 8 ≡ y)
  reason_fields x y h k =
      let v = info f 0x100 in
      let v1 = set_bits v 12 4 x in
      let v2 = set_bits v1 16 8 y in
      omega (
        arith,
        set_bits-add f 0 0 12 0x100,
        set_bits-add f v 12 4 x,
        set_bits-add f v1 16 8 y,
        get_bits_lem v2 0 12,
        get_bits_lem v2 12 4,
        get_bits_lem v2 16 8,
      )
