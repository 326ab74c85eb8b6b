-- ===== src/Ghcb/Tests.antt =====
-- Runs of the MSR protocol at concrete inputs.
use mushroom.Prelude.{◌≡◌, some, arith}
use mushroom.Prelude.BitField.{bits}
use mushroom.Prelude.Outcome.{returns}
use mushroom.Ghcb.MsrProtocol.{ebx, cpuid_request, encode, decode}
use mushroom.Ghcb.MsrProtocol.RoundTrip.{decode-encode}

decode-encode_example :
    decode bits (encode bits (cpuid_request 7 ebx)) ≡ returns (some (cpuid_request 7 ebx))
decode-encode_example = decode-encode bits (cpuid_request 7 ebx) (λ e. cc) (omega arith)
