-- ===== src/Registries/Npm/Restored.antt =====
-- Where the tarballs of a rewritten document lead.
use mathlib.Core.Path.{subst}
use locaccel.Prelude.{
  String, List, [], ◌∷◌, some, true, false, ◌≡◌, refl, sym, ap, arith, any, ◌==◌, eq_iff,
  Bool-cases, Option-cases, inl, inr, ◌⊎◌,
}
use locaccel.Prelude.Text.{◌<+>◌, is_empty, cut_prefix, has_prefix}
use locaccel.Prelude.Text.Prefix.{cut_prefix-append}
use locaccel.Registries.Npm.{
  Version, trim_prefix, find_remote, rewrite_versions, rewritten_versions,
}

-- A tarball is led from the remote to here, with the rest of its URL; or it is not of the remote,
-- and its whole URL is put behind the address of this server.
abbrev pub Moved : String → String → String → String → Type 0
Moved here remote old new =
    ((rest : String) × (old ≡ remote <+> rest) × (new ≡ here <+> rest))
    ⊎ ((has_prefix remote old ≡ false) × (new ≡ here <+> old))

trim_prefix-Moved :
    (here remote old : String) → Moved here remote old (here <+> trim_prefix remote old)
unfolding trim_prefix has_prefix
trim_prefix-Moved here remote old = elim (Option-cases (cut_prefix remote old)) [
  | inl e ↦ inr (ground (arith, e), ap (λ t. here <+> t) (ground (arith, e)))
  | inr (rest, e) ↦
      inl (rest, cut_prefix-append remote old rest e, ap (λ t. here <+> t) (ground (arith, e)))
]

-- The versions with their names and all else as they were, and their tarballs moved.
abbrev pub AreMoved : String → String → List (String × Version) → List (String × Version) → Type 0
AreMoved here remote [] [] = Unit
AreMoved here remote [] (w ∷ ws) = ⊥
AreMoved here remote (v ∷ vs) [] = ⊥
AreMoved here remote ((name, v) ∷ vs) ((name', w) ∷ ws) =
    (name' ≡ name)
    × (w.others ≡ v.others)
    × Moved here remote v.tarball w.tarball
    × AreMoved here remote vs ws

rewrite_versions-AreMoved :
    (here remote : String) (versions : List (String × Version))
    → AreMoved here remote versions (rewrite_versions here remote versions)
unfolding rewrite_versions
rewrite_versions-AreMoved here remote [] = tt
rewrite_versions-AreMoved here remote ((name, v) ∷ versions) = (
  refl,
  refl,
  trim_prefix-Moved here remote v.tarball,
  rewrite_versions-AreMoved here remote versions,
)

find_remote-member :
    (upstreams : List String) (tarball remote : String)
    → find_remote upstreams tarball ≡ some remote
    → (any (λ u. u == remote) upstreams ≡ true) × (has_prefix remote tarball ≡ true)
unfolding find_remote
find_remote-member [] tarball remote e = cc
find_remote-member (u ∷ us) tarball remote e = elim (Bool-cases (has_prefix u tarball)) [
  | inl found ↦ ground (arith, found, e, eq_iff u remote)
  | inr other ↦ ground (arith, other, e, find_remote-member us tarball remote)
]

-- Of a document that is rewritten, the first tarball is of one of the upstreams, not an empty one,
-- and all tarballs that are of this upstream are led here with the rest of their URL, all else being
-- kept; a tarball that is of no other upstream than that gets its whole URL behind the address of
-- this server.
pub rewritten_versions-AreMoved :
    (here : String) (upstreams : List String) (name : String) (first : Version)
    (versions out : List (String × Version))
    → rewritten_versions here upstreams ((name, first) ∷ versions) ≡ some out
    → (remote : String) × (any (λ u. u == remote) upstreams ≡ true)
      × (has_prefix remote first.tarball ≡ true)
      × (is_empty remote ≡ false)
      × AreMoved here remote ((name, first) ∷ versions) out
unfolding rewritten_versions
rewritten_versions-AreMoved here upstreams name first versions out e =
    elim (Option-cases (find_remote upstreams first.tarball)) [
      | inl q ↦ absurd (ground (arith, q, e))
      | inr (remote, q) ↦ elim (Bool-cases (is_empty remote)) [
        | inl blank ↦ absurd (ground (arith, q, blank, e))
        | inr full ↦
            let (member, prefix) = find_remote-member upstreams first.tarball remote q in
            let r : out ≡ rewrite_versions here remote ((name, first) ∷ versions) =
              ground (arith, q, full, e) in
            (
              remote,
              member,
              prefix,
              full,
              subst (AreMoved here remote ((name, first) ∷ versions)) (sym r)
                  (rewrite_versions-AreMoved here remote ((name, first) ∷ versions)),
            )
      ]
    ]
