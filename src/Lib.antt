-- ===== src/Lib.antt =====
-- The verification library of minisign_rs, a program that signs files and verifies signatures
-- in the format of minisign. It models the Rust code of rs/src, function by function, and proves
-- what makes it correct.
--
-- The parts, from the bottom up, and where each is modelled:
--   Base, Errors       the lists, texts and results that all parts share; errors.rs
--   Formats            formats.rs: base64, and 64-bit numbers as bytes
--   Crypto             crypto.rs: key material, key identifiers, the calls of the cryptographic
--                      crates, hashing in parts; Crypto.Kdf has the limits of the key derivation
--   Validation         validation.rs: what comments may hold
--   Signature          signature.rs: the signature structure and its file of four lines
--   Keys               keys.rs: Keys.Pubkey, Keys.Seckey, and Keys.Sealing, the encryption of a
--                      secret key under a password
--   Wordlist           wordlist.rs: a key number as words
--   Ops.Files          ops/file_utils.rs, as far as it reads
--   Ops.Writing        ops/file_utils.rs, as far as it writes
--   Ops.Verify         ops/verify.rs: one file, and a batch
--   Ops.Paths          ops/file_utils.rs, where a path leads and which outputs are refused
--   Ops.Sign           ops/sign.rs: the making of a signature; Ops.Sign.File, one file with the
--                      writing of its signature; Ops.Sign.Batch, several files
--   Ops.Modes          ops/mod.rs, and the sealing of a key that generation and change share
--   Ops.Generate       ops/generate.rs: Ops.Generate.Pair, the two files of a key pair with the
--                      undoing of failures; Ops.Generate.Lock, the force-overwrite lock;
--                      Ops.Generate.Make, the whole operation
--   Ops.Change         ops/change.rs: another password for a key
--   Ops.Recreate       ops/recreate.rs: the public key file again
--   Ops.Inspect        ops/inspect.rs: what a key file or a signature file is
--   Cli                cli.rs: the expansion of combined flags, the choice of the action, the checks
--                      between flags, the default paths
--   Credentials        credential_store.rs: passwords in the key store of the operating system
--   Main               main.rs: the exit code, the passwords that are asked for or read from a
--                      file, and the saving of a password with the check of what was saved;
--                      Main.Verifying, the handler of -V; Main.Rekeying, the handler of -K
-- A definition has the name of its function; a method carries the name of its type where two
-- types have it (`SigStruct::to_bytes` is `sig_to_bytes`, `SignatureBox::new` is `new_box`,
-- `verify` of ops/verify.rs is `verify_file`). Below each part stand the modules of its theorems.
--
-- How the code is represented:
--   * A `Result` is `ok` or `err` with the error of the source. A text inside an error is a
--     constructor of `Message` that names its format string.
--   * Bytes and characters are native numbers. Fixed arrays are lists, and the `Is...` predicates
--     state their sizes; reads and writes at offsets keep the offsets of the source.
--   * A `u64` keeps its bounds where the code checks them: `checked_mul` fails at 2 ^ 64.
--   * The crates base64, ed25519_dalek, blake2 and scrypt are the records `Base64` and
--     `Primitives`; `IsBase64` and `ArePrimitives` state what they document and what the code
--     relies on. Nothing is assumed about forgery or collisions.
--   * An open file is the size of its metadata and the answers of its `read` calls, interrupted
--     and failing ones included. A `Disk` gives the answer of each call on a path. The metadata
--     of a path and the contents that an open gives need not agree.
--   * A `Store` gives the file under each path. A writing operation takes its `Faults`, which say
--     how each call of the system fails, and returns its result and the store that it leaves. The
--     random name of a temporary file is an argument.
--     The writing of a key pair takes `PairFaults`, one for each call of a run.
--   * What the code draws at random (a `Draw`, the salt of a new password) and the clock are
--     arguments. So is what other processes do while a pair is written or the lock is awaited.
--   * The operations that read and write take a `System`, whose disk answers what is read while a
--     store receives what is written. Directories are made beside the store.
--   * A path that has been resolved is the list of its components, the last one first; the system
--     says where it leads.
--   * The crate keyring is the record `Keyring`, whose calls are made in a state and leave one;
--     `IsKeyring` states what they document. The look-up of an inspection is such a call too.
--     What the crate pico_args finds is an argument.
-- Loops over the answers of a file end with the list of answers. `digits` has fuel 20, the number
-- of digits of a `u64`; `hex_number` has as many digits as are printed. The wait for the lock has
-- fuel, and a theorem gives an amount that is enough.
--
-- Not modelled: the handlers of -G, -S, -R and -I and the display of their results, the refusal of
-- unknown arguments, the injection of failures in debug builds, the ancestors that a failed making
-- of directories leaves, warnings that are only printed, wiping of memory, the reserved names of
-- Windows, and the C and Zig program that the repository keeps beside this one.
pub mod Base
pub mod Errors
pub mod Formats
pub mod Crypto
pub mod Validation
pub mod Signature
pub mod Keys
mod Tests
pub mod Wordlist
pub mod Ops
pub mod Cli
pub mod Credentials
pub mod Main
