-- ===== src/Maildir/Names.antt =====
-- internal/maildir/maildir.go: file names, flags, and the order of keys.
use mailroom.Prelude.{
  Bool, List, Option, Text, [], codes, decimal, drop, false, if◌then◌else◌, index, keep, ltb,
  nat_eq, none, padded, some, take, text_eq, ℕ, ◌%◌, ◌++◌, ◌+◌, ◌-◌, ◌/◌, ◌==◌, ◌||◌, ◌∷◌,
}

-- "DFRST"
abbrev pub flag_letters : Text
flag_letters = codes "DFRST"

hex_digit : ℕ → ℕ
hex_digit n = if ltb n 10 then b'0' + n else b'a' + (n - 10)

-- hex.EncodeToString
unfoldable pub hex_encode : List ℕ → Text
unfolding hex_digit
hex_encode [] = []
hex_encode (b ∷ bs) = hex_digit (b / 16) ∷ hex_digit (b % 16) ∷ hex_encode bs

-- The replacer of "/" by "\057" and of ":" by "\072".
unfoldable pub escape_hostname : Text → Text
escape_hostname [] = []
escape_hostname (c ∷ s) =
    let rest = escape_hostname s in
    if c == b'/'
    then codes "\\057" ++ rest
    else if c == b':'
    then codes "\\072" ++ rest
    else c ∷ rest

pub host_or_local : Option Text → Text
host_or_local none = codes "localhost"
host_or_local (some host) = host

-- uniqueName, from the clock, the random bytes, the process id, the counter and the host's name,
-- which is `none` where `os.Hostname` fails.
unfoldable pub unique_name : ℕ → List ℕ → ℕ → ℕ → Option Text → Text
unfolding hex_encode escape_hostname host_or_local padded decimal
unique_name nanos random pid n hostname =
    padded 20 nanos
    ++ (b'.'
        ∷ (hex_encode random
            ++ (decimal pid
                ++ (b'_' ∷ (decimal n ++ (b'.' ∷ escape_hostname (host_or_local hostname)))))))

-- The key and the flags of a directory entry's name.
unfoldable pub split_flags : Text → Text × Text
unfolding index take drop
split_flags name = elim (index name (codes ":2,")) [
  | none ↦ (name, [])
  | some i ↦ (take i name, drop (i + 3) name)
]

-- strings.IndexByte(flags, letter) != -1
unfoldable pub has_flag : Text → ℕ → Bool
has_flag [] letter = false
has_flag (c ∷ s) letter = c == letter || has_flag s letter

-- The letters of `SetFlags`: those of `flagLetters` that `flags` has, in their order.
unfoldable pub normalize_flags : Text → Text
unfolding has_flag keep
normalize_flags flags = keep (λ letter. has_flag flags letter) flag_letters

unfoldable pub flagged_name : Text → Text → Text
unfolding normalize_flags
flagged_name key flags = key ++ (codes ":2," ++ normalize_flags flags)
