-- ===== src/Text.antt =====
-- stdutil/string.c. A string is the bytes from an address on, up to a zero. A loop that only a
-- terminator ends runs on fuel, and is `none` without enough of it.
pub mod Length
pub mod Compare
pub mod Copy
pub mod Trim
mod Tests
use nuts_os.Base.{
  ℕ, zero, suc, ◌+◌, ◌-◌, ◌^◌, Bool, true, false, not, ◌&&◌, ◌||◌, Option, none, some, List, [],
  ◌∷◌, ltb, leb, ◌==◌, if◌then◌else◌, update,
}
use nuts_os.Base.Int.{ℤ, pos, negsuc, sub_ℕ}
use nuts_os.Memory.{Mem}

-- A byte above 127 is a negative char, and so out of both ranges as well.
unfoldable pub isdigit : ℕ → Bool
isdigit c = leb b'0' c && leb c b'9'

unfoldable pub isspace : ℕ → Bool
isspace c = c == 32 || (leb 9 c && leb c 13)

unfoldable pub tolower : ℕ → ℕ
tolower s = if leb b'A' s && leb s b'Z' then s + 32 else s

-- The char is signed.
unfoldable pub ctoi : ℕ → ℤ
ctoi c = if ltb c 128 then sub_ℕ c b'0' else negsuc (256 - c + b'0' - 1)

strlen_loop : ℕ → Mem → ℕ → ℕ → Option ℕ
strlen_loop zero m str len = none
strlen_loop (suc fuel) m str len = elim (m (str + len) == 0) [
  | true ↦ some len
  | false ↦ strlen_loop fuel m str (len + 1)
]

unfoldable pub strlen : ℕ → Mem → ℕ → Option ℕ
unfolding strlen_loop
strlen fuel m str = strlen_loop fuel m str 0

-- `left` is `max - len`.
strnlen_loop : ℕ → Mem → ℕ → ℕ → ℕ
strnlen_loop zero m str len = len
strnlen_loop (suc left) m str len = elim (m (str + len) == 0) [
  | true ↦ len
  | false ↦ strnlen_loop left m str (len + 1)
]

unfoldable pub strnlen : Mem → ℕ → ℕ → ℕ
unfolding strnlen_loop
strnlen m str max = strnlen_loop max m str 0

-- The length counts the terminator too; the loop makes at most `max` rounds, and at least one.
strnlent_loop : ℕ → Mem → ℕ → ℕ → ℕ → ℕ → ℕ
strnlent_loop zero m str max term len = len
strnlent_loop (suc left) m str max term len =
    elim (not (m (str + len) == term) && ltb (len + 1) max) [
      | true ↦ strnlent_loop left m str max term (len + 1)
      | false ↦ len + 1
    ]

unfoldable pub strnlent : Mem → ℕ → ℕ → ℕ → ℕ
unfolding strnlent_loop
strnlent m str max term = strnlent_loop (max + 1) m str max term 0

-- The loop of strncmp, over the characters that `fold` makes of the bytes.
unfoldable pub compare_loop : (ℕ → ℕ) → Mem → Mem → ℕ → ℕ → ℕ → ℤ
compare_loop fold m₁ m₂ s1 s2 zero = pos 0
compare_loop fold m₁ m₂ s1 s2 (suc n) = elim (not (m₁ s1 == 0) && (fold (m₁ s1) == fold (m₂ s2))) [
  | true ↦ compare_loop fold m₁ m₂ (s1 + 1) (s2 + 1) n
  | false ↦ sub_ℕ (fold (m₁ s1)) (fold (m₂ s2))
]

unfoldable pub strncmp : Mem → Mem → ℕ → ℕ → ℕ → ℤ
unfolding compare_loop
strncmp = compare_loop (λ c. c)

unfoldable pub istrncmp : Mem → Mem → ℕ → ℕ → ℕ → ℤ
unfolding compare_loop
istrncmp = compare_loop tolower

-- The result is the address behind the last byte written, and the memory.
unfoldable pub strcpy : ℕ → ℕ → ℕ → Mem → Option (ℕ × Mem)
strcpy zero dest src m = none
strcpy (suc fuel) dest src m = elim (m src == 0) [
  | true ↦ some (dest + 1, update m dest (m src))
  | false ↦ strcpy fuel (dest + 1) (src + 1) (update m dest (m src))
]

-- A byte is copied before `size` is tested, so up to `size + 1` bytes are written.
unfoldable pub strncpy : ℕ → ℕ → ℕ → Mem → ℕ × Mem
strncpy dest src zero m = (dest + 1, update m dest (m src))
strncpy dest src (suc size) m = elim (m src == 0) [
  | true ↦ (dest + 1, update m dest (m src))
  | false ↦ strncpy (dest + 1) (src + 1) size (update m dest (m src))
]

unfoldable pub ltrim : ℕ → Mem → ℕ → Option ℕ
ltrim zero m s = none
ltrim (suc fuel) m s = elim (not (m s == 0) && isspace (m s)) [
  | true ↦ ltrim fuel m (s + 1)
  | false ↦ some s
]

-- The loop of rtrim on the length kept: `s + kept - 1` is the pointer `end`.
rtrim_loop : Mem → ℕ → ℕ → ℕ
rtrim_loop m s zero = zero
rtrim_loop m s (suc kept) = elim (not (m (s + kept) == 0) && isspace (m (s + kept))) [
  | true ↦ rtrim_loop m s kept
  | false ↦ suc kept
]

unfoldable pub rtrim : ℕ → Mem → ℕ → Option Mem
unfolding rtrim_loop
rtrim fuel m s = elim (strlen fuel m s) [
  | none ↦ none
  | some len ↦ some (update m (s + rtrim_loop m s len) 0)
]

unfoldable pub trim : ℕ → Mem → ℕ → Option (ℕ × Mem)
trim fuel m s = elim (rtrim fuel m s) [
  | none ↦ none
  | some m' ↦ elim (ltrim fuel m' s) [ none ↦ none | some s' ↦ some (s', m') ]
]

-- sprintf with the pointers that its `%s` take. The count is of format characters, and no
-- terminator is written behind the last of them; `none` is fuel or an argument that is missing.
unfoldable pub sprintf_loop : ℕ → ℕ → ℕ → List ℕ → ℕ → Mem → Option (ℕ × Mem)
sprintf_loop zero str fmt args count m = none
sprintf_loop (suc fuel) str fmt args count m = elim (m fmt == 0) [
  | true ↦ some (count, m)
  | false ↦ elim (m fmt == b'%') [
    | false ↦ sprintf_loop fuel (str + 1) (fmt + 1) args (count + 1) (update m str (m fmt))
    | true ↦ elim (m (fmt + 1) == b's') [
      | true ↦ elim args [
        | [] ↦ none
        | token ∷ rest ↦ elim (strcpy fuel str token m) [
          | none ↦ none
          | some (_, m') ↦ elim (strlen fuel m' token) [
            | none ↦ none
            | some len ↦ sprintf_loop fuel (str + len) (fmt + 2) rest (count + 1) m'
          ]
        ]
      ]
      | false ↦ elim (m (fmt + 1) == b'%') [
        | true ↦ sprintf_loop fuel (str + 1) (fmt + 2) args (count + 1) (update m str b'%')
        | false ↦ sprintf_loop fuel str (fmt + 2) args (count + 1) m
      ]
    ]
  ]
]

unfoldable pub sprintf : ℕ → ℕ → ℕ → List ℕ → Mem → Option (ℕ × Mem)
sprintf fuel str fmt args m = sprintf_loop fuel str fmt args 0 m
