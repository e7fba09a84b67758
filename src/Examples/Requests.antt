-- ===== src/Examples/Requests.antt =====
-- Witnesses for the paths in requests.
use syncer.Prelude.{ℕ, ◌≡◌, refl, List, [], ◌∷◌, ok}
use syncer.Prelude.Texts.{codes}
use syncer.Core.Manifest.Safety.{IsSafe, parse-IsSafe}
use syncer.Agent.PathCodec.{encode_relative_path, decode_relative_path}
use syncer.Agent.PathCodec.RoundTrip.{decode_relative_path-IsSafe, decode_relative_path-encode}
use syncer.Examples.{std_crates, std_crates-HasStdPaths}

decode_relative_path-IsSafe_example : IsSafe (codes "a b")
unfolding decode_relative_path syncer.Prelude.Paths.is_whitespace syncer.Prelude.Paths.is_absolute
    syncer.Prelude.Paths.components syncer.Prelude.text_beq syncer.Prelude.Paths.push
decode_relative_path-IsSafe_example =
    decode_relative_path-IsSafe std_crates std_crates-HasStdPaths (codes "a%20b") (codes "a b") refl

decode_relative_path-encode_example :
    decode_relative_path std_crates (encode_relative_path (codes "a é")) ≡ ok (codes "a é")
unfolding syncer.Core.Manifest.parse syncer.Prelude.Paths.is_whitespace
    syncer.Prelude.Paths.is_absolute syncer.Prelude.Paths.components syncer.Prelude.text_beq
    syncer.Prelude.Paths.push syncer.Prelude.Utf8.is_scalar
decode_relative_path-encode_example =
    decode_relative_path-encode std_crates std_crates-HasStdPaths (codes "a é")
      (parse-IsSafe std_crates std_crates-HasStdPaths (codes "a é") (codes "a é") refl) refl
      (refl, (refl, (refl, tt)))
