-- ===== src/Ghcb/MsrProtocol.antt =====
-- common/snp-types/src/ghcb/msr_protocol.rs: the values of the GHCB MSR, written and read. The
-- bit operations are those of the crate `bit_field`; a `PhysFrame` is its start address.
pub mod Fields
pub mod Layout
pub mod RoundTrip
use mushroom.Prelude.{
  ℕ, ◌+◌, ◌*◌, ◌%◌, ◌^◌, Bool, true, false, Option, none, some, ltb, ◌==◌, if◌then◌else◌,
}
use mushroom.Prelude.BitField.{BitField}
use mushroom.Prelude.Outcome.{Outcome, returns, panics, ◌>>=◌, ◌>>◌}

pub data CpuidRegister : Type 0 where
  eax ebx ecx edx : CpuidRegister

pub data PageOperation : Type 0 where
  page_assignment_private page_assignment_shared : PageOperation

pub data GhcbInfo : Type 0 where
  ghcb_guest_physical_address : ℕ → GhcbInfo
  -- The maximum and the minimum version, and the position of the C-bit.
  sev_information : ℕ → ℕ → ℕ → GhcbInfo
  sev_information_request : GhcbInfo
  cpuid_request : ℕ → CpuidRegister → GhcbInfo
  cpuid_response : ℕ → CpuidRegister → GhcbInfo
  ap_reset_hold_request : GhcbInfo
  ap_reset_hold_response : GhcbInfo
  preferred_ghcb_gpa_request : GhcbInfo
  preferred_ghcb_gpa_response : Option ℕ → GhcbInfo
  register_ghcb_gpa_request : ℕ → GhcbInfo
  register_ghcb_gpa_response : Option ℕ → GhcbInfo
  snp_page_state_change_request : PageOperation → ℕ → GhcbInfo
  snp_page_state_change_response : Option ℕ → GhcbInfo
  hypervisor_feature_support_request : GhcbInfo
  hypervisor_feature_support_response : Bool → Bool → Bool → Bool → GhcbInfo
  -- The reason code's set and the code.
  termination_request : ℕ → ℕ → GhcbInfo

-- `register as u64`
abbrev pub register_code : CpuidRegister → ℕ
register_code eax = 0
register_code ebx = 1
register_code ecx = 2
register_code edx = 3

-- `operation as u64`
abbrev pub operation_code : PageOperation → ℕ
operation_code page_assignment_private = 1
operation_code page_assignment_shared = 2

-- `0xf_ffff_ffff_ffff`
abbrev pub no_gfn : ℕ
no_gfn = 0xf_ffff_ffff_ffff

-- `PhysFrame::from_start_address(PhysAddr::new(gfn << 12)).unwrap()`: `PhysAddr::new` panics for
-- an address of more than 52 bits.
abbrev pub frame_of : ℕ → Outcome ℕ
frame_of gfn = if ltb gfn (2 ^ 40) then returns (gfn * 0x1000) else panics

abbrev pub register_of : ℕ → CpuidRegister
register_of code =
    if code == 0 then eax else if code == 1 then ebx else if code == 2 then ecx else edx

abbrev pub operation_of : ℕ → Option PageOperation
operation_of code =
    if code == 1
    then some page_assignment_private
    else if code == 2
    then some page_assignment_shared
    else none

module _ (f : BitField) where
  open f use {get_bit, set_bit, get_bits, set_bits}

  -- `address.start_address().as_u64().get_bits(12..)`
  abbrev pub gfn_of : ℕ → ℕ
  gfn_of address = get_bits address 12 52

  abbrev pub gfn_or_none : Option ℕ → ℕ
  gfn_or_none none = no_gfn
  gfn_or_none (some address) = gfn_of address

  abbrev pub error_or_zero : Option ℕ → ℕ
  error_or_zero none = 0
  error_or_zero (some code) = code

  -- A value with the info code in its low 12 bits.
  abbrev pub info : ℕ → ℕ
  info code = set_bits 0 0 12 code

  pub features_bitmap : Bool → Bool → Bool → Bool → ℕ
  features_bitmap a b c d = set_bit (set_bit (set_bit (set_bit 0 0 a) 1 b) 2 c) 3 d

  -- `From<GhcbInfo> for u64`
  pub encode : GhcbInfo → ℕ
  encode (ghcb_guest_physical_address address) = set_bits (info 0x000) 12 52 (gfn_of address)
  encode (sev_information maximum minimum c_bit) =
      set_bits (set_bits (set_bits (info 0x001) 24 8 c_bit) 32 16 minimum) 48 16 maximum
  encode sev_information_request = info 0x002
  encode (cpuid_request function register) =
      set_bits (set_bits (set_bits (info 0x004) 12 18 0) 30 2 (register_code register)) 32 32
        function
  encode (cpuid_response value register) =
      set_bits (set_bits (set_bits (info 0x005) 12 18 0) 30 2 (register_code register)) 32 32 value
  encode ap_reset_hold_request = set_bits (info 0x006) 12 52 0
  encode ap_reset_hold_response = set_bits (info 0x007) 12 52 1
  encode preferred_ghcb_gpa_request = set_bits (info 0x010) 12 52 0
  encode (preferred_ghcb_gpa_response address) = set_bits (info 0x011) 12 52 (gfn_or_none address)
  encode (register_ghcb_gpa_request address) = set_bits (info 0x012) 12 52 (gfn_of address)
  encode (register_ghcb_gpa_response address) = set_bits (info 0x013) 12 52 (gfn_or_none address)
  encode (snp_page_state_change_request operation address) =
      set_bits
        (set_bits (set_bits (info 0x014) 12 40 (gfn_of address)) 52 4 (operation_code operation)) 56
        8 0
  encode (snp_page_state_change_response error_code) =
      set_bits (set_bits (info 0x015) 12 20 0) 32 32 (error_or_zero error_code)
  encode hypervisor_feature_support_request = set_bits (info 0x080) 12 52 0
  encode (hypervisor_feature_support_response a b c d) =
      set_bits (info 0x081) 12 52 (features_bitmap a b c d)
  encode (termination_request reason_code_set reason_code) =
      set_bits (set_bits (info 0x100) 12 4 reason_code_set) 16 8 reason_code

  -- The optional frame of a response.
  abbrev pub frame_or_none : ℕ → Outcome (Option ℕ)
  frame_or_none gfn =
      if gfn == no_gfn then returns none else frame_of gfn >>= λ address. returns (some address)

  -- The page state change request, by its operation.
  abbrev pub page_state_change : ℕ → Option PageOperation → ℕ → Outcome (Option GhcbInfo)
  page_state_change msr none address = returns none
  page_state_change msr (some operation) address =
      if get_bits msr 56 8 == 0
      then returns (some (snp_page_state_change_request operation address))
      else returns none

  -- `TryFrom<u64> for GhcbInfo`; `none` is a `ParseError`.
  pub decode : ℕ → Outcome (Option GhcbInfo)
  decode msr =
      let code = get_bits msr 0 12 in
      let rest = get_bits msr 12 52 in
      if code == 0x000
      then (frame_of rest >>= λ a. returns (some (ghcb_guest_physical_address a)))
      else if code == 0x001
      then returns (
          some (
            sev_information (get_bits msr 48 16 % 256) (get_bits msr 32 16 % 256)
              (get_bits msr 24 8)))
      else if code == 0x002
      then returns (some sev_information_request)
      else if code == 0x004
      then (if get_bits msr 12 18 == 0
          then returns (some (cpuid_request (get_bits msr 32 32) (register_of (get_bits msr 30 2))))
          else returns none)
      else if code == 0x005
      then (if get_bits msr 12 18 == 0
          then returns
              (some (cpuid_response (get_bits msr 32 32) (register_of (get_bits msr 30 2))))
          else returns none)
      else if code == 0x006
      then returns (if rest == 0 then some ap_reset_hold_request else none)
      else if code == 0x007
      then returns (if rest == 0 then none else some ap_reset_hold_response)
      else if code == 0x010
      then returns (if rest == 0 then none else some preferred_ghcb_gpa_request)
      else if code == 0x011
      then (frame_or_none rest >>= λ a. returns (some (preferred_ghcb_gpa_response a)))
      else if code == 0x012
      then (frame_of rest >>= λ a. returns (some (register_ghcb_gpa_request a)))
      else if code == 0x013
      then (frame_or_none rest >>= λ a. returns (some (register_ghcb_gpa_response a)))
      else if code == 0x014
      then (frame_of (get_bits msr 12 40)
          >>= page_state_change msr (operation_of (get_bits msr 52 4)))
      else if code == 0x015
      then (if get_bits msr 12 20 == 0
          then returns (
              some (
                snp_page_state_change_response
                  (if get_bits msr 32 32 == 0 then none else some (get_bits msr 32 32))))
          else returns none)
      else if code == 0x080
      then returns (if rest == 0 then some hypervisor_feature_support_request else none)
      else if code == 0x081
      then returns (
          some (
            hypervisor_feature_support_response (get_bit rest 0) (get_bit rest 1) (get_bit rest 2)
              (get_bit rest 3)))
      else if code == 0x100
      then returns (some (termination_request (get_bits msr 12 4) (get_bits msr 16 8)))
      else returns none
