-- ===== src/Agent/PeerClient/Fetch/Laws.antt =====
-- What a file that crates/syncer-agent/src/peer_client.rs has fetched is like.
use syncer.Prelude.{
  ℕ, zero, suc, ◌-◌, ◌≤◌, ◌≡◌, sym, ap, ◌∙◌, List, [], ◌∷◌, ◌++◌, ok, err, ok_injective, >>=-eq-ok,
  map_err-eq-ok, guard-eq-ok, guard, ok_or, map_err, ◌==◌, nat_eq, beq→eq, length, length-append,
  arith, Result,
}
use std.Path.{subst}
use syncer.Prelude.Lists.{split_at}
use syncer.Prelude.Words.{u64_max}
use syncer.Prelude.Texts.{Text, text_eq, codes}
use syncer.Core.Manifest.{RelativePath}
use syncer.Agent.Crates.{AgentCrates, HasAead}
use syncer.Agent.PeerClient.{
  PeerClientError, io, invalid_response, http_status, unexpected_content_length, peer_crypto,
  TransferredFile, Reads, Peer,
}
use syncer.Agent.PeerClient.Fetch.{copy_exact, fetch_file_to_path}
use syncer.Agent.PeerClient.Response.{ResponseHead, parse_response_head, accept_head, open_file}
use syncer.Agent.PeerCrypto.{
  Output, FileCipherContext, encrypted_len, encryption_algorithm, decrypt_file_to_path,
}
use syncer.Agent.PeerCrypto.Hashes.{decrypt_file-hash}
use syncer.Agent.PeerCrypto.Sizes.{decrypt_file-sizes}
use syncer.Agent.PeerServer.Auth.{get}

split_at_small : {A : Type 0} (n : ℕ) (xs : List A) → length (split_at n xs).0 ≤ n
split_at_small zero xs = omega arith
split_at_small (suc n) [] = omega arith
split_at_small (suc n) (x ∷ xs) = omega (arith, split_at_small n xs)

split_at_all : {A : Type 0} (n : ℕ) (xs : List A) → length (split_at n xs).0 ≤ length xs
split_at_all zero xs = omega arith
split_at_all (suc n) [] = omega arith
split_at_all (suc n) (x ∷ xs) = omega (arith, split_at_all n xs)

length-copy_exact :
    (o : Output) (n : ℕ) (reads : Reads) {body : List ℕ}
    → copy_exact o n reads ≡ ok body
    → length body ≤ n
unfolding copy_exact
length-copy_exact o zero reads {body} same = ground (arith, same)
length-copy_exact o (suc n) [] same = cc
length-copy_exact o (suc n) (err message ∷ reads) same = cc
length-copy_exact o (suc n) (ok [] ∷ reads) same = cc
length-copy_exact o (suc n) (ok (byte ∷ more) ∷ reads) {body} same =
    let (written, at1, r1) = >>=-eq-ok (map_err io (o.write_chunk (suc n))) _ same in
    let (rest, at2, r2) = >>=-eq-ok (copy_exact o (n - length more) reads) _ r1 in
    let rest_small = length-copy_exact o (n - length more) reads at2 in
    let first = split_at_small (suc n) (byte ∷ more) in
    let least = split_at_all (suc n) (byte ∷ more) in
    let all = ap length (ok_injective ((split_at (suc n) (byte ∷ more)).0 ++ rest) body r2) in
    let parts = length-append (split_at (suc n) (byte ∷ more)).0 rest in
    omega (arith, all, parts, first, least, rest_small)

accept_head-length :
    (size : ℕ) (head : ResponseHead) {pair : Text × Text}
    → accept_head size head ≡ ok pair
    → head.content_length ≡ encrypted_len size
unfolding accept_head
accept_head-length size head same =
    let (a, at1, r1) = >>=-eq-ok (guard (head.status == 200) (http_status head.status)) _ same in
    let (encryption, at2, r2) =
      >>=-eq-ok (ok_or invalid_response (get (codes "x-syncer-encryption") head.headers)) _ r1 in
    let (b, at3, r3) =
      >>=-eq-ok (guard (encryption == encryption_algorithm) invalid_response) _ r2 in
    let (nonce, at4, r4) =
      >>=-eq-ok (ok_or invalid_response (get (codes "x-syncer-nonce") head.headers)) _ r3 in
    let (content_hash, at5, r5) =
      >>=-eq-ok (ok_or invalid_response (get (codes "x-syncer-content-hash") head.headers)) _ r4 in
    let (d, at6, r6) =
      >>=-eq-ok
        (guard (head.content_length == encrypted_len size)
          (unexpected_content_length (encrypted_len size) head.content_length))
        _ r5 in
    beq→eq head.content_length (encrypted_len size) (guard-eq-ok _ _ at6)

encrypted_len_small : (size : ℕ) → encrypted_len size ≤ u64_max
unfolding encrypted_len
encrypted_len_small size = omega arith

-- A file with these contents, whose size and hash are reported.
pub record IsFetched (c : AgentCrates) (size : ℕ) (transferred : TransferredFile)
    (contents : List ℕ) : Type 0 where
  pub reported_size : transferred.size_bytes ≡ size
  pub size_lem : length contents ≡ size
  pub hash_lem : transferred.content_hash ≡ c.core.blake3_hex contents

abbrev context_of : RelativePath → Text → ℕ → FileCipherContext
context_of path hash size = record {
  direction = codes "download";
  path = path;
  content_hash = hash;
  plaintext_size = size;
}

open_file-IsFetched :
    (c : AgentCrates) (destination : Output) (secret_hex : Text) (path : RelativePath) (size : ℕ)
    (nonce content_hash : Text) (body : List ℕ) {transferred : TransferredFile} {contents : List ℕ}
    → HasAead c
    → length body ≤ u64_max
    → open_file c destination secret_hex path size nonce content_hash body
      ≡ ok (transferred, contents)
    → IsFetched c size transferred contents
unfolding open_file
open_file-IsFetched c destination secret_hex path size nonce content_hash body {transferred}
      {contents} aead small same =
    let context = context_of path content_hash size in
    let (pair, at1, r1) =
      >>=-eq-ok
        (map_err peer_crypto
          (decrypt_file_to_path c (ok body) destination secret_hex nonce context))
        _ same in
    let decrypted : decrypt_file_to_path c (ok body) destination secret_hex nonce context
        ≡ ok pair =
      map_err-eq-ok peer_crypto _ at1 in
    let (sized, file_sized, read) =
      decrypt_file-sizes c body destination secret_hex nonce context {file = pair.0}
        {plaintext = pair.1} aead small decrypted in
    let hashed =
      decrypt_file-hash c body destination secret_hex nonce context {file = pair.0}
        {plaintext = pair.1} decrypted in
    let same_pair : (
      record { size_bytes = pair.0.size_bytes; content_hash = pair.0.content_hash },
      pair.1,
    )
        ≡ (transferred, contents) =
      ok_injective _ _ r1 in
    let files : record { size_bytes = pair.0.size_bytes; content_hash = pair.0.content_hash }
        ≡ transferred =
      ap (λ (p : TransferredFile × List ℕ). p.0) same_pair in
    let written : pair.1 ≡ contents = ap (λ (p : TransferredFile × List ℕ). p.1) same_pair in
    record {
      reported_size = ap (λ (f : TransferredFile). f.size_bytes) (sym files) ∙ file_sized;
      size_lem = ap length (sym written) ∙ sized;
      hash_lem =
          ap (λ (f : TransferredFile). f.content_hash) (sym files)
          ∙ hashed
          ∙ ap c.core.blake3_hex written;
    }

IsFetched-same :
    (c : AgentCrates) (size : ℕ) (found : TransferredFile × List ℕ) (copied : List ℕ)
    (reported : TransferredFile × (List ℕ × List ℕ))
    → (let r : Result PeerClientError (TransferredFile × (List ℕ × List ℕ)) =
          ok (found.0, (copied, found.1)) in
        r ≡ ok reported)
    → IsFetched c size found.0 found.1
    → IsFetched c size reported.0 reported.1.1
IsFetched-same c size found copied reported same f =
    subst (λ (p : TransferredFile × (List ℕ × List ℕ)). IsFetched c size p.0 p.1.1)
      (ok_injective (found.0, (copied, found.1)) reported same) f

-- What a fetch writes to the destination has the size that was asked for, and its hash is reported.
pub fetch_file_to_path-IsFetched :
    (c : AgentCrates) (encrypted destination : Output) (peer : Peer) (path : RelativePath)
    (size : ℕ) {transferred : TransferredFile} {body contents : List ℕ}
    → HasAead c
    → fetch_file_to_path c encrypted destination peer path size ≡ ok (transferred, (body, contents))
    → IsFetched c size transferred contents
unfolding fetch_file_to_path
fetch_file_to_path-IsFetched c encrypted destination peer path size {transferred} {body} {contents}
      aead same =
    let ((head_bytes, reads), at1, r1) = >>=-eq-ok (peer.get_file path) _ same in
    let (head, at2, r2) = >>=-eq-ok (parse_response_head head_bytes) _ r1 in
    let ((nonce, content_hash), at3, r3) = >>=-eq-ok (accept_head size head) _ r2 in
    let (created, at4, r4) = >>=-eq-ok (map_err io encrypted.create) _ r3 in
    let (copied, at5, r5) = >>=-eq-ok (copy_exact encrypted head.content_length reads) _ r4 in
    let (synced, at6, r6) = >>=-eq-ok (map_err io encrypted.sync_all) _ r5 in
    let (pair, at7, r7) =
      >>=-eq-ok (open_file c destination peer.shared_secret_hex path size nonce content_hash copied)
        _ r6 in
    let small : length copied ≤ u64_max = omega (
      arith,
      length-copy_exact encrypted head.content_length reads at5,
      accept_head-length size head at3,
      encrypted_len_small size,
    ) in
    IsFetched-same c size pair copied (transferred, (body, contents)) r7
      (open_file-IsFetched c destination peer.shared_secret_hex path size nonce content_hash copied
        aead small at7)
