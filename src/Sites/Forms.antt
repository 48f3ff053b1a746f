-- ===== src/Sites/Forms.antt =====
-- What is typed into the forms of a site (internal/webapp/agents.go): its ID and its prefixes; and the
-- install code (internal/webapp/enroll.go). `strings.ToLower` and `ToUpper` change ASCII letters only.
use selfremote.Common.{
  ℕ, ◌+◌, ◌-◌, ◌%◌, Bool, true, false, not, ◌&&◌, ◌||◌, String, List, [], ◌∷◌, ◌++◌, Option, none,
  some, leb, ltb, ◌==◌, if◌then◌else◌, length, take, drop, map, get_or,
}
use selfremote.Auth.{trim_space}
use selfremote.Net.{Prefix, masked, is4}
use selfremote.Routes.{AgentRoute}
use selfremote.Translate.Route.{same}
use selfremote.Sites.{Codec, World}

abbrev pub lower : ℕ → ℕ
lower c = if leb 65 c && leb c 90 then c + 32 else c

abbrev pub upper : ℕ → ℕ
upper c = if leb 97 c && leb c 122 then c - 32 else c

abbrev pub is_slug : ℕ → Bool
is_slug c = leb 97 c && leb c 122 || leb 48 c && leb c 57 || c == 45

unfoldable pub all_slug : List ℕ → Bool
all_slug [] = true
all_slug (c ∷ cs) = is_slug c && all_slug cs

abbrev pub is_blank_text : List ℕ → Bool
is_blank_text [] = true
is_blank_text (c ∷ cs) = false

-- `validAgentID`
unfoldable pub valid_agent_id : List ℕ → Bool
unfolding all_slug
valid_agent_id id = not (is_blank_text id) && leb (length id) 32 && all_slug id

-- `strings.Split` at a byte.
abbrev pub to_first : ℕ → List (List ℕ) → List (List ℕ)
to_first c [] = (c ∷ []) ∷ []
to_first c (line ∷ lines) = (c ∷ line) ∷ lines

unfoldable pub split_on : ℕ → List ℕ → List (List ℕ)
split_on b [] = [] ∷ []
split_on b (c ∷ cs) = let rest = split_on b cs in if c == b then [] ∷ rest else to_first c rest

abbrev pub starts_with : List ℕ → List ℕ → Bool
starts_with [] cs = true
starts_with (b ∷ bs) [] = false
starts_with (b ∷ bs) (c ∷ cs) = b == c && starts_with bs cs

abbrev pub after_first : ℕ → Option (List ℕ × List ℕ) → Option (List ℕ × List ℕ)
after_first c none = none
after_first c (some (before, after)) = some (c ∷ before, after)

-- The text before and behind the first `sep`, as `strings.Index` finds it.
unfoldable pub cut : List ℕ → List ℕ → Option (List ℕ × List ℕ)
cut sep [] = none
cut sep (c ∷ cs) =
    let rest = after_first c (cut sep cs) in
    if starts_with sep (c ∷ cs) then some ([], drop (length sep) (c ∷ cs)) else rest

abbrev pub real_and_virtual :
    List ℕ → Option (List ℕ × List ℕ) → Option (List ℕ × List ℕ) → List ℕ × List ℕ
real_and_virtual line (some (real, virtual)) other = (trim_space real, trim_space virtual)
real_and_virtual line none (some (real, virtual)) = (trim_space real, trim_space virtual)
real_and_virtual line none none = (line, [])

-- The two sides of a line: at "=>", else at "=".
unfoldable pub sides : List ℕ → List ℕ × List ℕ
unfolding cut
sides line = real_and_virtual line (cut (61 ∷ 62 ∷ []) line) (cut (61 ∷ []) line)

abbrev pub is_note : List ℕ → Bool
is_note [] = true
is_note (c ∷ cs) = c == 35

module _ (codec : Codec) where
  unfoldable pub virtual_side : Prefix → List ℕ → Option String
  virtual_side rp virtual =
      if is_blank_text virtual then some "" else elim (codec.parse_prefix (codec.text virtual)) [
        | none ↦ none
        | some p ↦
            if not (same (is4 p.addr) (is4 rp.addr)) || not (p.bits == rp.bits)
            then none
            else some (codec.print (masked p))
      ]

  -- One line of the text: `none` is an error.
  unfoldable pub parse_line : List ℕ × List ℕ → Option AgentRoute
  unfolding virtual_side
  parse_line (real, virtual) = elim (codec.parse_prefix (codec.text real)) [
    | none ↦ none
    | some rp ↦ if is4 rp.addr && ltb rp.bits 8 then none else elim (virtual_side rp virtual) [
      | none ↦ none
      | some vp ↦ some (record { real = codec.print (masked rp); virtual = vp })
    ]
  ]

  unfoldable pub parse_lines : List (List ℕ) → Option (List AgentRoute)
  unfolding sides parse_line
  parse_lines [] = some []
  parse_lines (line ∷ lines) =
      let rest = parse_lines lines in
      if is_note (trim_space line) then rest else elim (parse_line (sides (trim_space line))) [
        | none ↦ none
        | some r ↦ elim rest [ none ↦ none | some rs ↦ some (r ∷ rs) ]
      ]

  -- `parseAgentRoutes`
  unfoldable pub parse_agent_routes : List ℕ → Option (List AgentRoute)
  unfolding split_on parse_lines
  parse_agent_routes raw = parse_lines (split_on 10 raw)

-- `installCodeAlphabet`: letters and digits less 0, 1, I, L and O.
abbrev pub in_alphabet : ℕ → Bool
in_alphabet c =
    leb 50 c && leb c 57 || (leb 65 c && leb c 90 && not (c == 73 || c == 76 || c == 79))

unfoldable pub kept_letters : List ℕ → List ℕ
kept_letters [] = []
kept_letters (c ∷ cs) =
    let rest = kept_letters cs in if in_alphabet (upper c) then upper c ∷ rest else rest

-- `normalizeInstallCode`
unfoldable pub normalize_install_code : List ℕ → List ℕ
unfolding kept_letters
normalize_install_code raw =
    let s = kept_letters (trim_space raw) in
    if length s == 8 then take 4 s ++ (45 ∷ drop 4 s) else s

-- "ABCDEFGHJKMNPQRSTUVWXYZ23456789"
abbrev pub alphabet : List ℕ
alphabet =
    65 ∷ 66 ∷ 67 ∷ 68 ∷ 69 ∷ 70 ∷ 71 ∷ 72 ∷ 74 ∷ 75 ∷ 77 ∷ 78 ∷ 80 ∷ 81 ∷ 82 ∷ 83 ∷ 84 ∷ 85 ∷ 86
    ∷ 87 ∷ 88 ∷ 89 ∷ 90 ∷ 50 ∷ 51 ∷ 52 ∷ 53 ∷ 54 ∷ 55 ∷ 56 ∷ 57 ∷ []

abbrev pub letter : ℕ → ℕ
letter x = get_or alphabet (x % 31) 0

-- `newInstallCode` on the eight bytes of the random source.
unfoldable pub new_install_code : List ℕ → List ℕ
new_install_code buf = map letter (take 4 buf) ++ (45 ∷ map letter (drop 4 buf))

abbrev pub install_code : World → Option (List ℕ)
install_code w = elim w.code [ none ↦ none | some buf ↦ some (new_install_code buf) ]
