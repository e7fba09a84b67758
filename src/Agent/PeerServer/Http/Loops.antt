-- ===== src/Agent/PeerServer/Http/Loops.antt =====
-- The loops of crates/syncer-agent/src/peer_server.rs that read from a stream.
use syncer.Prelude.{
  ℕ, zero, suc, ◌+◌, ◌-◌, ◌≤◌, ◌≡◌, refl, ap, sym, ◌∙◌, min, true, false, Bool-cases, ◌⊎◌, inl, inr,
  Option, some, length-append, ok_injective, List, [], ◌∷◌, ◌++◌, ok, err, ltb, nat_eq, length,
  arith,
}
use syncer.Prelude.Lists.{split_at}
use syncer.Agent.PeerServer.{ServerResult, PeerServerError, invalid_request}
use syncer.Agent.PeerServer.Http.{
  Stream, arrived, timed_out, broken, read_some, read_head, has_header, max_header_bytes,
}
use syncer.Agent.PeerServer.Http.Body.{read_up_to}

abbrev pub Ends {ℓ} : {A : Type ℓ} → Option A → Type ℓ
Ends {A} x = (a : A) × (x ≡ some a)

head_step :
    (fuel : ℕ) (buffer : List ℕ) (stream : Stream) (now : ServerResult (List ℕ))
    → (read_some 4096 stream).0 ≡ now
    → ((b : ℕ) (more : List ℕ)
        → length (buffer ++ b ∷ more) ≤ max_header_bytes
        → Ends (read_head fuel (buffer ++ b ∷ more) (read_some 4096 stream).1))
    → Ends (read_head (suc fuel) buffer stream)
unfolding read_head
head_step fuel buffer stream (err e) at again = rw (at, read_head) (_, refl)
head_step fuel buffer stream (ok []) at again = rw (at, read_head) (_, refl)
head_step fuel buffer stream (ok (b ∷ more)) at again =
    let joined = buffer ++ b ∷ more in
    elim (Bool-cases (ltb max_header_bytes (length joined))) [
      | inl over ↦ rw (at, read_head, over) (_, refl)
      | inr fits ↦ elim (Bool-cases (has_header joined)) [
        | inl whole ↦ rw (at, read_head, fits, whole) (_, refl)
        | inr part ↦ rw (at, read_head, fits, part) (again b more (ground arith))
      ]
    ]

pub read_head-Ends :
    (fuel : ℕ) (buffer : List ℕ) (stream : Stream)
    → length buffer ≤ max_header_bytes
    → suc max_header_bytes ≤ length buffer + fuel
    → Ends (read_head fuel buffer stream)
read_head-Ends zero buffer stream small enough = absurd (omega arith)
read_head-Ends (suc fuel) buffer stream small enough =
    head_step fuel buffer stream (read_some 4096 stream).0 refl λ b more fits.
      read_head-Ends fuel (buffer ++ b ∷ more) (read_some 4096 stream).1 fits
        (omega (arith, length-append buffer (b ∷ more)))

-- What is known of a body that a loop has read.
abbrev pub ReadUpTo : ℕ → Option (ServerResult (List ℕ) × Stream) → Type 0
ReadUpTo content_length x =
    Ends x
    × ((body : List ℕ) (rest : Stream) → x ≡ some (ok body, rest) → length body ≡ content_length)

pub read-ne :
    (e : PeerServerError) (body : List ℕ) (s t : Stream)
    → (let x : Option (ServerResult (List ℕ) × Stream) = some (err e, s) in x ≡ some (ok body, t))
    → ⊥
read-ne e body s t same = cc

pub err_read :
    (content_length : ℕ) (e : PeerServerError) (rest : Stream)
    → ReadUpTo content_length (some (err e, rest))
err_read content_length e rest =
    ((_, refl), λ body after same. absurd (read-ne e body rest after same))

split_at-within : (limit : ℕ) (xs : List ℕ) → length (split_at limit xs).0 ≤ limit
split_at-within zero xs = omega arith
split_at-within (suc limit) [] = omega arith
split_at-within (suc limit) (x ∷ xs) = omega (arith, split_at-within limit xs)

err-ne-ok :
    {A : Type 0} (e : PeerServerError) (a : A) → (let r : ServerResult A = err e in r ≡ ok a) → ⊥
err-ne-ok e a same = cc

pub read_some-within :
    (limit : ℕ) (stream : Stream) (now : List ℕ)
    → (read_some limit stream).0 ≡ ok now
    → length now ≤ limit
unfolding read_some
read_some-within limit [] now same = omega (arith, ap length (ok_injective [] now same))
read_some-within limit (timed_out ∷ stream) now same = absurd (err-ne-ok _ now same)
read_some-within limit (broken message ∷ stream) now same = absurd (err-ne-ok _ now same)
read_some-within limit (arrived input ∷ stream) now same =
    omega (
      arith,
      ap length (ok_injective (split_at limit input).0 now same),
      split_at-within limit input,
    )

read_injective :
    (a b : List ℕ) (s t : Stream)
    → (let x : Option (ServerResult (List ℕ) × Stream) = some (ok a, s) in x ≡ some (ok b, t))
    → a ≡ b
read_injective a b s t same = cc

done_reading :
    (content_length : ℕ) (body : List ℕ) (stream : Stream)
    → length body ≡ content_length
    → ReadUpTo content_length (some (ok body, stream))
done_reading content_length body stream same = (
  (_, refl),
  λ other rest after. ap length (sym (read_injective body other stream rest after)) ∙ same,
)

pub result_ending :
    (r : ServerResult (Unit {0})) → ((e : PeerServerError) × (r ≡ err e)) ⊎ (r ≡ ok tt)
result_ending (ok done) = inr refl
result_ending (err e) = inl (e, refl)

up_to_step :
    (buffer_size : ℕ) (write : ℕ → ServerResult (Unit {0})) (content_length fuel : ℕ)
    (body : List ℕ) (stream : Stream) (now : ServerResult (List ℕ))
    → ltb (length body) content_length ≡ true
    → (read_some (min (content_length - length body) buffer_size) stream).0 ≡ now
    → ((b : ℕ) (more : List ℕ)
        → now ≡ ok (b ∷ more)
        → ReadUpTo content_length (
            read_up_to buffer_size write content_length fuel
              (body ++ b ∷ more)
              (read_some (min (content_length - length body) buffer_size) stream).1))
    → ReadUpTo content_length (read_up_to buffer_size write content_length (suc fuel) body stream)
unfolding read_up_to
up_to_step buffer_size write content_length fuel body stream (err e) less at again =
    rw (read_up_to, less, at) (err_read content_length e _)
up_to_step buffer_size write content_length fuel body stream (ok []) less at again =
    rw (read_up_to, less, at) (err_read content_length invalid_request _)
up_to_step buffer_size write content_length fuel body stream (ok (b ∷ more)) less at again =
    elim (result_ending (write (length body))) [
      | inl (e, failed) ↦ rw (read_up_to, less, at, failed) (err_read content_length e _)
      | inr done ↦ rw (read_up_to, less, at, done) (again b more refl)
    ]

pub read_up_to-reads :
    (buffer_size : ℕ) (write : ℕ → ServerResult (Unit {0})) (content_length fuel : ℕ)
    (body : List ℕ) (stream : Stream)
    → length body ≤ content_length
    → content_length ≤ length body + fuel
    → ReadUpTo content_length (read_up_to buffer_size write content_length fuel body stream)
unfolding read_up_to
read_up_to-reads buffer_size write content_length zero body stream small enough =
    let full : ltb (length body) content_length ≡ false = ground arith in
    rw full (done_reading content_length body stream (omega arith))
read_up_to-reads buffer_size write content_length (suc fuel) body stream small enough =
    elim (Bool-cases (ltb (length body) content_length)) [
      | inl less ↦
          up_to_step buffer_size write content_length fuel body stream _ less refl λ b more now.
            read_up_to-reads buffer_size write content_length fuel (body ++ b ∷ more)
              (read_some (min (content_length - length body) buffer_size) stream).1
              (let fits =
                  read_some-within (min (content_length - length body) buffer_size) stream
                    (b ∷ more) now in
                ground (arith, length-append body (b ∷ more)))
              (omega (arith, length-append body (b ∷ more)))
      | inr full ↦ rw (read_up_to, full) (done_reading content_length body stream (ground arith))
    ]
