-- ===== src/Chunk/Parse.antt =====
-- `ParseChunkID` and `ChunkID.String` of internal/model/chunk.go against each other.
use go_lobby.Prelude.{
  ℕ, ◌<◌, ◌≡◌, refl, ◌≢◌, List, [], ◌∷◌, ◌++◌, All, ok, arith, ==_of_ne, ap, inl, inr, Bool-cases,
  eqb,
}
use go_lobby.Prelude.Int.{ℤ, pos, negsuc, two63}
use go_lobby.Prelude.Text.{Str, str_eq, str_beq_iff}
use go_lobby.Chunk.{ChunkId, parse_parts, parse_chunk_id, parse_chunk_coord, chunk_id_string}
use go_lobby.Chunk.Numbers.{split, push_head, itoa, IsDigit, atoi-itoa, itoa-IsDigit, atoi-lt}

-- Not negative, and what an `int` holds.
abbrev pub IsCoord : ℤ → Type 0
IsCoord (pos n) = n < two63
IsCoord (negsuc n) = ⊥

abbrev pub NoColon : Str → Type 0
NoColon = All (λ c. c ≢ b':')

pub record IsCanonical (id : ChunkId) : Type 0 where
  pub region_some : id.region ≢ []
  pub region_plain : NoColon id.region
  pub z_coord : IsCoord id.z
  pub x_coord : IsCoord id.x
  pub y_coord : IsCoord id.y

split-append : (s t : Str) → NoColon s → split b':' (s ++ (b':' ∷ t)) ≡ s ∷ split b':' t
unfolding split
split-append [] t h = refl
split-append (c ∷ s) t h = ground (arith, split-append s t h.1)

split_plain : (s : Str) → NoColon s → split b':' s ≡ s ∷ []
unfolding split
split_plain [] h = refl
split_plain (c ∷ s) h = ground (arith, split_plain s h.1)

IsDigit-NoColon : (s : Str) → All IsDigit s → NoColon s
IsDigit-NoColon [] h = tt
IsDigit-NoColon (c ∷ s) h = (omega arith, IsDigit-NoColon s h.1)

itoa-NoColon : (v : ℤ) → IsCoord v → NoColon (itoa v)
itoa-NoColon (pos n) h = IsDigit-NoColon _ (itoa-IsDigit n)
itoa-NoColon (negsuc n) h = absurd h

parse_chunk_coord-itoa : (v : ℤ) → IsCoord v → parse_chunk_coord (itoa v) ≡ ok v
unfolding parse_chunk_coord
parse_chunk_coord-itoa (pos n) h = rw (atoi-itoa n h) (ground arith)
parse_chunk_coord-itoa (negsuc n) h = absurd h

-- An identifier with a region that is not empty and has no colon, and with coordinates that are not negative
-- and fit an `int`, is read back from its printed form.
pub parse_chunk_id-chunk_id_string :
    (id : ChunkId) → IsCanonical id → parse_chunk_id (chunk_id_string id) ≡ ok id
unfolding parse_chunk_id chunk_id_string
parse_chunk_id-chunk_id_string id c = rw (
  split-append id.region _ c.region_plain,
  split-append (itoa id.z) _ (itoa-NoColon id.z c.z_coord),
  split-append (itoa id.x) _ (itoa-NoColon id.x c.x_coord),
  split_plain (itoa id.y) (itoa-NoColon id.y c.y_coord),
  ==_of_ne id.region [] c.region_some,
  parse_chunk_coord-itoa id.z c.z_coord,
  parse_chunk_coord-itoa id.x c.x_coord,
  parse_chunk_coord-itoa id.y c.y_coord,
)

push_head-NoColon :
    (c : ℕ) (parts : List Str) → c ≢ b':' → All NoColon parts → All NoColon (push_head c parts)
unfolding push_head
push_head-NoColon c [] ne h = ((ne, tt), tt)
push_head-NoColon c (s ∷ parts) ne h = ((ne, h.0), h.1)

split-NoColon : (s : Str) → All NoColon (split b':' s)
unfolding split
split-NoColon [] = (tt, tt)
split-NoColon (c ∷ s) = elim (Bool-cases (eqb c b':')) [
  | inl sep ↦ rw sep (tt, split-NoColon s)
  | inr plain ↦ rw plain (push_head-NoColon c (split b':' s) (ground arith) (split-NoColon s))
]

parse_chunk_coord-IsCoord : (s : Str) (v : ℤ) → parse_chunk_coord s ≡ ok v → IsCoord v
unfolding parse_chunk_coord
parse_chunk_coord-IsCoord s (pos n) e = atoi-lt s n (ground arith)
parse_chunk_coord-IsCoord s (negsuc n) e = ground arith

parse_parts-IsCanonical :
    (parts : List Str) (id : ChunkId)
    → All NoColon parts
    → parse_parts parts ≡ ok id
    → IsCanonical id
unfolding parse_parts
parse_parts-IsCanonical (region ∷ raw_z ∷ raw_x ∷ raw_y ∷ []) id h e = record {
  region_some = ground (arith, str_beq_iff region []);
  region_plain = ground (arith, h.0);
  z_coord = parse_chunk_coord-IsCoord raw_z id.z (ground arith);
  x_coord = parse_chunk_coord-IsCoord raw_x id.x (ground arith);
  y_coord = parse_chunk_coord-IsCoord raw_y id.y (ground arith);
}
parse_parts-IsCanonical _ id h e = cc

-- Whatever text is accepted, the identifier has a region that is not empty and has no colon, and
-- coordinates that are not negative and fit an `int`.
pub parse_chunk_id-IsCanonical :
    (raw : Str) (id : ChunkId) → parse_chunk_id raw ≡ ok id → IsCanonical id
unfolding parse_chunk_id
parse_chunk_id-IsCanonical raw id e =
    parse_parts-IsCanonical (split b':' raw) id (split-NoColon raw) e

-- Two identifiers of that kind with one printed form are equal, so the printed form is a key.
pub chunk_id_string_inj :
    (a b : ChunkId) → IsCanonical a → IsCanonical b → chunk_id_string a ≡ chunk_id_string b → a ≡ b
chunk_id_string_inj a b ca cb e =
    let pa = parse_chunk_id-chunk_id_string a ca in
    let pb = parse_chunk_id-chunk_id_string b cb in ground (arith, pa, pb, ap parse_chunk_id e)
