-- ===== src/Ghcb/MsrProtocol/RoundTrip.antt =====
-- What the hypervisor or the guest reads of a value that the other side wrote, in msr_protocol.rs.
use mushroom.Prelude.{ℕ, ◌^◌, ◌<◌, ◌≤◌, ◌≡◌, ◌≢◌, refl, none, some, arith}
use mushroom.Prelude.BitField.{BitField}
use mushroom.Prelude.Outcome.{returns, panics}
use mushroom.Ghcb.MsrProtocol.{
  CpuidRegister, eax, ebx, ecx, edx, PageOperation, page_assignment_private, page_assignment_shared,
  GhcbInfo, ghcb_guest_physical_address, sev_information, sev_information_request, cpuid_request,
  cpuid_response, ap_reset_hold_request, ap_reset_hold_response, preferred_ghcb_gpa_request,
  preferred_ghcb_gpa_response, register_ghcb_gpa_request, register_ghcb_gpa_response,
  snp_page_state_change_request, snp_page_state_change_response, hypervisor_feature_support_request,
  hypervisor_feature_support_response, termination_request, register_code, operation_code,
  register_of, operation_of, no_gfn, features_bitmap, gfn_of, encode, decode, info,
}
use mushroom.Ghcb.MsrProtocol.Fields.{set_bits-add, features_bitmap-lt, features_bitmap_bits}
use mushroom.Ghcb.MsrProtocol.Layout.{
  IsFrame, two_fields, gfn, sev_fields, cpuid_fields, page_fields, error_fields, reason_fields,
}

-- What the Rust types say of a value: widths, frames, and error codes that are not zero.
abbrev pub IsInfo : GhcbInfo → Type 0
IsInfo (ghcb_guest_physical_address address) = IsFrame address
IsInfo (sev_information maximum minimum c_bit) = (maximum < 256) × (minimum < 256) × (c_bit < 256)
IsInfo (cpuid_request function register) = function < 2 ^ 32
IsInfo (cpuid_response value register) = value < 2 ^ 32
IsInfo (preferred_ghcb_gpa_response (some address)) = IsFrame address
IsInfo (register_ghcb_gpa_request address) = IsFrame address
IsInfo (register_ghcb_gpa_response (some address)) = IsFrame address
IsInfo (snp_page_state_change_request operation address) = IsFrame address
IsInfo (snp_page_state_change_response (some code)) = (0 < code) × (code < 2 ^ 32)
IsInfo (termination_request reason_code_set reason_code) =
    (reason_code_set < 16) × (reason_code < 256)
IsInfo _ = Unit

register_lt : (r : CpuidRegister) → register_code r < 4
register_lt eax = omega arith
register_lt ebx = omega arith
register_lt ecx = omega arith
register_lt edx = omega arith

register_lem : (r : CpuidRegister) → register_of (register_code r) ≡ r
register_lem eax = refl
register_lem ebx = refl
register_lem ecx = refl
register_lem edx = refl

operation_lem :
    (o : PageOperation) → (operation_code o < 16) × (operation_of (operation_code o) ≡ some o)
operation_lem page_assignment_private = (omega arith, refl)
operation_lem page_assignment_shared = (omega arith, refl)

module _ (f : BitField) where
  -- Every value whose fields fit their types, other than the request for a preferred GHCB address, reads
  -- back as it was written.
  pub decode-encode :
      (i : GhcbInfo)
      → i ≢ preferred_ghcb_gpa_request
      → IsInfo i
      → decode f (encode f i) ≡ returns (some i)
  unfolding encode decode
  decode-encode (ghcb_guest_physical_address address) n h =
      ground (arith, gfn f address h, two_fields f 0 (gfn_of f address))
  decode-encode (sev_information maximum minimum c_bit) n h =
      ground (arith, sev_fields f maximum minimum c_bit)
  decode-encode sev_information_request n h =
      ground (arith, set_bits-add f 0 0 12 2, f.get_bits_lem (info f 2) 0 12)
  decode-encode (cpuid_request function register) n h = ground (
    arith,
    register_lt register,
    register_lem register,
    cpuid_fields f 4 (register_code register) function,
  )
  decode-encode (cpuid_response value register) n h = ground (
    arith,
    register_lt register,
    register_lem register,
    cpuid_fields f 5 (register_code register) value,
  )
  decode-encode ap_reset_hold_request n h = ground (arith, two_fields f 6 0)
  decode-encode ap_reset_hold_response n h = ground (arith, two_fields f 7 1)
  decode-encode preferred_ghcb_gpa_request n h = absurd (n refl)
  decode-encode (preferred_ghcb_gpa_response none) n h = ground (arith, two_fields f 0x11 no_gfn)
  decode-encode (preferred_ghcb_gpa_response (some address)) n h =
      ground (arith, gfn f address h, two_fields f 0x11 (gfn_of f address))
  decode-encode (register_ghcb_gpa_request address) n h =
      ground (arith, gfn f address h, two_fields f 0x12 (gfn_of f address))
  decode-encode (register_ghcb_gpa_response none) n h = ground (arith, two_fields f 0x13 no_gfn)
  decode-encode (register_ghcb_gpa_response (some address)) n h =
      ground (arith, gfn f address h, two_fields f 0x13 (gfn_of f address))
  decode-encode (snp_page_state_change_request operation address) n h = ground (
    arith,
    gfn f address h,
    operation_lem operation,
    page_fields f (gfn_of f address) (operation_code operation),
  )
  decode-encode (snp_page_state_change_response none) n h = ground (arith, error_fields f 0)
  decode-encode (snp_page_state_change_response (some code)) n h =
      ground (arith, error_fields f code)
  decode-encode hypervisor_feature_support_request n h = ground (arith, two_fields f 0x80 0)
  decode-encode (hypervisor_feature_support_response a b c d) n h = ground (
    arith,
    features_bitmap-lt f a b c d,
    two_fields f 0x81 (features_bitmap f a b c d),
    features_bitmap_bits f a b c d,
  )
  decode-encode (termination_request reason_code_set reason_code) n h =
      ground (arith, reason_fields f reason_code_set reason_code)

  -- The request for a preferred GHCB address is not read back: the reader wants a value that the
  -- writer leaves zero.
  pub decode-encode_preferred : decode f (encode f preferred_ghcb_gpa_request) ≡ returns none
  unfolding encode decode
  decode-encode_preferred = ground (arith, two_fields f 0x10 0)

  -- A value that names a frame beyond 52 bits of address makes the reader panic.
  pub decode_panics :
      (msr : ℕ) → f.get_bits msr 0 12 ≡ 0 → 2 ^ 40 ≤ f.get_bits msr 12 52 → decode f msr ≡ panics
  unfolding decode
  decode_panics msr h k = ground arith
