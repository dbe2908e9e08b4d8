-- ===== src/Tests/Signature.antt =====
-- Signatures with concrete bytes, and runs of signing and verifying.
use minisign_rs.Base.{
  replicate-IsArray, ◌≡◌, refl, arith, false, [], ◌∷◌, ◌++◌, replicate, All, All-append, IsByte,
  Bytes, Text, codes, utf8, slice, text_len,
}
use minisign_rs.Errors.{ok}
use minisign_rs.Crypto.{KeyNum, sign}
use minisign_rs.Signature.{
  SigStruct, IsSigStruct, SignatureBox, sig_from_bytes, box_to_file_contents,
  box_from_file_contents, with_global_signature, global_signature_data,
}
use minisign_rs.Signature.File.{
  IsBox, box_from_file_contents-box_to_file_contents, box_from_file_contents-IsBox,
}
use minisign_rs.Validation.{validate_untrusted_comment, validate_trusted_comment, is_printable}
use minisign_rs.Tests.Models.{hex, hex-IsBase64, toy, digest, sum}

abbrev kn : KeyNum
kn = record { bytes = replicate 8 1 }

abbrev sig : SigStruct
sig = record { prehashed = false; keynum = kn; signature = record { bytes = replicate 64 2 } }

sig-IsSigStruct : IsSigStruct sig
sig-IsSigStruct = (replicate-IsArray 8 1 (omega arith), replicate-IsArray 64 2 (omega arith))

abbrev sig_bytes : Bytes
sig_bytes = (b'E' ∷ b'd' ∷ []) ++ (replicate 8 1 ++ replicate 64 2)

sig_bytes-IsByte : All IsByte sig_bytes
sig_bytes-IsByte = (
  omega arith,
  (
    omega arith,
    All-append IsByte (replicate 8 1) (replicate 64 2) sig-IsSigStruct.0.1 sig-IsSigStruct.1.1,
  ),
)

sig_bytes_lem : sig_from_bytes sig_bytes ≡ ok sig
unfolding sig_from_bytes slice
sig_bytes_lem = refl

-- The toy signature of a message is 64 times the sum of its bytes: here 128 and the comment's.
abbrev trusted : Text
trusted = codes "ok"

abbrev box : SignatureBox
box = record {
  untrusted_comment = codes "u";
  sig_struct = sig;
  trusted_comment = trusted;
  global_signature = record { bytes = replicate 64 90 };
}

accepted :
    (validate_untrusted_comment box.untrusted_comment ≡ ok tt)
    × (validate_trusted_comment trusted ≡ ok tt)
unfolding validate_untrusted_comment validate_trusted_comment is_printable text_len
accepted = (refl, refl)

box-IsBox : IsBox box
box-IsBox = record {
  sig_struct_arrays = sig-IsSigStruct;
  global_array = replicate-IsArray 64 90 (omega arith);
  untrusted_accepted = accepted.0;
  trusted_accepted = accepted.1;
}

box_from_file_contents-box_to_file_contents_example :
    box_from_file_contents hex (box_to_file_contents hex box) ≡ ok box
box_from_file_contents-box_to_file_contents_example =
    box_from_file_contents-box_to_file_contents hex hex-IsBase64 box box-IsBox

box_read : box_from_file_contents hex (box_to_file_contents hex box) ≡ ok box
box_read = box_from_file_contents-box_to_file_contents hex hex-IsBase64 box box-IsBox

box_from_file_contents-IsBox_example : IsBox box
box_from_file_contents-IsBox_example =
    box_from_file_contents-IsBox hex hex-IsBase64 (box_to_file_contents hex box) box box_read

signed :
    with_global_signature toy (codes "u") sig trusted (record { bytes = replicate 64 7 }) ≡ ok box
unfolding with_global_signature sign digest sum validate_untrusted_comment validate_trusted_comment
    is_printable text_len global_signature_data utf8
signed = refl
