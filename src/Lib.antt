-- ===== src/Lib.antt =====
-- Verification of bitcoins-rs: the serialization core of `coins-core`, the transaction types,
-- sighashes, scripts, addresses and the builder of `bitcoins`, the extended keys and
-- derivation paths of `coins-bip32`, the mnemonics of `coins-bip39`, the streams and merkle proofs of
-- `coins-provider`, and the commands and packets of `coins-ledger`.
--
-- Parts and files
--   Base        shared names, lists and Boolean tests over the native numbers, results with
--               panics, little-endian words.
--   Ser         core/src/ser.rs. Stream has the reads and writes, CompactInt the VarInt
--               (`read_compact_int`, `write_compact_int`), Chain what is read from two slices, one
--               behind the other, Format the trait `ByteFormat` as a record
--               of its methods with the default `read_seq_from`, and the prefixed vectors.
--   Wrapped     core/src/macros.rs, `wrap_prefixed_byte_vector!`: scripts, script sigs and witness
--               stack items are their bytes.
--   Hashes      core/src/hashes/mod.rs and `marked_digest!`: `hash256` and `hash160` over a record
--               of the digests of the hash crates, with their output sizes.
--   Bitcoins    bitcoins/src. TxIn, TxOut, Legacy and Witness are types/txin.rs, txout.rs,
--               legacy.rs and witness.rs; Sighash and Tx are types/tx.rs; Script is
--               types/script.rs and Utxo types/utxo.rs; Address is enc/encoder.rs with
--               enc/bases.rs and core's enc/bases.rs; Builder is builder.rs.
--   Bip32       bip32/src. Path is path.rs, and Path/Text the strings of indices and paths. Ten
--               rounds of fuel print the digits of any number below 2^32. Keys is xkeys.rs with
--               primitives.rs, Derived is derived.rs and Enc is enc.rs. Deriving a child has a round
--               of fuel for each index that is tried; the first is enough unless the hash at it is
--               no key.
--   Bip39       bip39/src. Wordlist is wordlist/mod.rs and Mnemonic is mnemonic.rs, with bits as
--               lists, the highest one first. The words are a parameter, and so are the random bytes
--               and the stretching of the seed. Cutting bits into chunks has fuel for one chunk for
--               each bit, and a chunk has at least one.
--   Provider    provider/src. Poll has what a poll reads and gives (provider.rs, lib.rs, macros.rs)
--               and runs of polls; Pending, Watcher and Tips are the streams of pending.rs,
--               watcher.rs and chain.rs; Last and Merkle are utils.rs. The loops of a merkle tree
--               have fuel for as many rows as there are leaves, and each row is at most half as
--               long as the one below.
--   Ledger      ledger/src. Apdu is common.rs and errors.rs, Hid is transports/hid.rs: the packets
--               of commands and answers and the exchange. Cutting a command has fuel for one chunk
--               for each byte and one more.
--   Handshakes  handshakes/src. LockingScript is types/lockingscript.rs, with the digests of the
--               crates as parameters; Covenant is types/covenant.rs, Output is types/txout.rs
--               and Input is types/txin.rs.
--   Tests       sample data, and the theorems at that data.
--
-- How the code is modelled
--   A reader is the list of bytes that are left, as a slice is. Only a transaction of either kind
--   reads from `tag.chain(reader)`, where one `read` stops at the end of the tag: Ser.Chain has the
--   VarInt that this can cut, which is the count of the inputs of a legacy transaction.
--   A writer is the list of bytes written so far. It is in memory, as a reader is, so writes do not
--   fail, and a write returns the count that the Rust function returns with the writer behind it.
--   A `Result` has a third constructor, `panic`,
--   for calls that do not return: an index out of bounds, an `unwrap` of nothing, a loop without
--   end. An error of a component that the code turns into text is kept as it is. Integers are
--   native numbers; where a conversion cuts a number the remainder is written out, and validity
--   records (IsInput, IsOutput, IsLegacy, IsWitness) state the range of each field.
--   A digest type is its bytes, with 32 bytes for a TXID. A public key is its bytes.
--   The crates for base58check and bech32 are a record of functions with their errors
--   (AddressCodecs); the theorems on addresses assume that decoding undoes encoding
--   (IsCodecs), for bech32 with a human-readable part in lower case.
--   `read_seq_from` to the end of a reader recurses on fuel, one more than the bytes that are
--   left, which is enough where each item takes at least a byte. What a failed
--   read leaves in a reader is not specified by Rust; here it is what was there before the item.
--
--   A stream is polled with what the provider and the timer answer, which are inputs of every
--   poll. A boxed future is whether it has given its value, since the future of an `async fn`
--   panics when it is polled after that. Polled.woken tells whether a poll called the waker or
--   left it with something that is pending.
--
--   The curve k256 is a record of its keys and points (Curve), the theorems on keys assume that
--   encodings are read back and that the key of a sum is the sum of the points (IsCurve); the
--   keyed hash is any function, and the codec of bs58 a record (Base58, IsBase58).
--   A Ledger device is what it says of each packet that is written and what it gives to each read;
--   when it gives nothing more, `read_timeout` returns 0 bytes after its timeout.
--
-- How the parts interact
--   Transactions read and write their parts through the records of ByteFormat, and the theorems
--   on vectors hold for any lawful record (IsCodec, IsCanonical, IsMeasured), which inputs,
--   outputs, byte vectors and digests fill. Sighashes write a transaction or its copy with the
--   same writers. The builder calls the constructors of the transaction types and the decoder of
--   addresses.
--
-- Not modelled
--   hex, base64 and serde wrappers call crates. Allocation failures are left out. Signing, the
--   Ledger app, Handshake transactions and the clients of network providers are not covered yet;
--   files of type aliases have no code.
pub mod Base
pub mod Ser
pub mod Provider
pub mod Bip39
pub mod Ledger
pub mod Wrapped
pub mod Hashes
pub mod Bitcoins
pub mod Bip32
pub mod Handshakes
pub mod Tests
