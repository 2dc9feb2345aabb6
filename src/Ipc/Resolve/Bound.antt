-- ===== src/Ipc/Resolve/Bound.antt =====
-- How long a resolved path is.
use runed.Prelude.{
  ℕ, zero, suc, ◌*◌, ◌≤◌, ◌<◌, ◌≡◌, ◌⊎◌, inl, inr, refl, arith, [], ◌∷◌, ◌++◌, Bytes, Option, text,
  itoa, length-itoa, length, length-append, take, Bool-cases, ltb,
}
use runed.Prelude.FilePath.Shorter.{length-join}
use runed.Route.Version.{hex}
use runed.Ipc.Resolve.{sun_path_limit, socket_alias_dir, absolute, alias, resolve_socket_path}

length-hex : (s : Bytes) → length (hex s) ≡ 2 * length s
unfolding hex
length-hex [] = refl
length-hex (b ∷ s) = omega (arith, length-hex s)

length-take : (n : ℕ) (s : Bytes) → length (take n s) ≤ n
length-take zero s = omega arith
length-take (suc n) [] = omega arith
length-take (suc n) (c ∷ s) = omega (arith, length-take n s)

length-socket_alias_dir : (uid : ℕ) → length (socket_alias_dir uid) ≤ 31
length-socket_alias_dir uid =
    omega (arith, length-join (text "/tmp") b'r' (text "uned-" ++ itoa uid), length-itoa uid)

length-alias : (sha256 : Bytes → Bytes) (uid : ℕ) (p : Bytes) → length (alias sha256 uid p) < 104
length-alias sha256 uid p =
    let half = hex (take 16 (sha256 p)) in
    omega (
      arith,
      length-join (socket_alias_dir uid) b'r' (text "uned-" ++ (half ++ text ".sock")),
      length-socket_alias_dir uid,
      length-append half (text ".sock"),
      length-hex (take 16 (sha256 p)),
      length-take 16 (sha256 p),
    )

-- Whatever the path, the user and the hash, ResolveSocketPath returns a path shorter than the limit of
-- 104 bytes: the path made absolute, exactly where that is short enough, or the alias.
pub resolve_socket_path-short :
    (sha256 : Bytes → Bytes) (abs : Bytes → Option Bytes) (uid : ℕ) (canonical : Bytes)
    → let path = absolute abs canonical in
      let r = resolve_socket_path sha256 abs uid canonical in
      (length r < sun_path_limit)
      × (((length path < sun_path_limit) × (r ≡ path))
          ⊎ ((sun_path_limit ≤ length path) × (r ≡ alias sha256 uid path)))
unfolding resolve_socket_path
resolve_socket_path-short sha256 abs uid canonical =
    let path = absolute abs canonical in
    elim (Bool-cases (ltb (length path) sun_path_limit)) [
      | inl e ↦ rw e (ground arith, inl (ground arith, refl))
      | inr e ↦ rw e (length-alias sha256 uid path, inr (ground arith, refl))
    ]
