-- ===== src/Cmdline/Subst/Laws.antt =====
-- `avb_sub_cmdline` against replacing one token after the other.
use android_boot_image_edito.Util.Strings.{avb_strdup, avb_strstr, avb_replace}
use android_boot_image_edito.Heap.{Heap, Plenty}
use android_boot_image_edito.Cmdline.Subst.{
  guid_loop, avb_sub_cmdline, guid_rounds, going, is_present, or_else, guid_round, subst_loop,
}
use android_boot_image_edito.Cmdline.Words.{
  token_system, token_boot, token_vbmeta, part_system, part_boot, part_vbmeta,
}
use android_boot_image_edito.Common.{
  subst, All, Bool-cases, inl, inr, ◌∙◌, false, ap, true, Bool, ◌≤◌, ◌≡◌, refl, arith, ◌+◌,
  if◌then◌else◌, Option, none, some, List, Bytes, [], ◌∷◌, ◌++◌, length,
}
use android_boot_image_edito.Ops.{AvbIoResult, io_ok}
use android_boot_image_edito.Util.Checked.{avb_safe_add}
use android_boot_image_edito.Util.Strings.Replace.{ReplacesTo, replace_all}
use android_boot_image_edito.Util.Text.{avb_str_concat}

-- Each token replaced by its value, one token after the other.
pub data Replacements : List (Bytes × Bytes) → Bytes → Bytes → Type 0 where
  done : {str : Bytes} → Replacements [] str str
  next :
      {token value str mid out : Bytes} {rest : List (Bytes × Bytes)}
      → ReplacesTo token value str mid
      → Replacements rest mid out
      → Replacements ((token, value) ∷ rest) str out

abbrev pub HasToken : Bytes × Bytes → Type 0
HasToken (token, value) = 1 ≤ length token

Replacements-append :
    {xs ys : List (Bytes × Bytes)} {x y z : Bytes}
    → Replacements xs x y
    → Replacements ys y z
    → Replacements (xs ++ ys) x z
Replacements-append done q = q
Replacements-append (next t p) q = next t (Replacements-append p q)

replace_token :
    (token value str : Bytes)
    → 1 ≤ length token
    → (out : Bytes) × (avb_replace str token value Plenty ≡ (some out, Plenty))
      × ReplacesTo token value str out
replace_token [] value str h = absurd (omega arith)
replace_token (x ∷ token) value str h = replace_all x token value str

subst_loop_next :
    (token value ret mid : Bytes) (rest : List (Bytes × Bytes)) (heap heap' : Heap)
    → avb_replace ret token value heap ≡ (some mid, heap')
    → subst_loop ((token, value) ∷ rest) ret heap ≡ subst_loop rest mid heap'
unfolding subst_loop
subst_loop_next token value ret mid rest heap heap' e =
    rw (ap (λ (r : Option Bytes × Heap). r.0) e, subst_loop)
      (ap (λ (r : Option Bytes × Heap). subst_loop rest mid r.1) e)

subst_loop_lem :
    (substitutions : List (Bytes × Bytes)) (ret : Bytes)
    → All HasToken substitutions
    → (out : Bytes) × (subst_loop substitutions ret Plenty ≡ (some out, Plenty))
      × Replacements substitutions ret out
unfolding subst_loop
subst_loop_lem [] ret h = (ret, refl, done)
subst_loop_lem ((token, value) ∷ rest) ret (p, h) =
    let (mid, e, t) = replace_token token value ret p in
    let (out, e', t') = subst_loop_lem rest mid h in
    (out, subst_loop_next token value ret mid rest Plenty Plenty e ∙ e', next t t')

-- The tokens found in the command line, with the GUIDs of their partitions.
abbrev pub guids :
    (Bytes → AvbIoResult × Bytes) → Bytes → Bytes → List (Bytes × Bytes) → List (Bytes × Bytes)
guids get_guid cmdline ab_suffix [] = []
guids get_guid cmdline ab_suffix ((part, token) ∷ rounds) =
    let rest = guids get_guid cmdline ab_suffix rounds in
    if is_present (avb_strstr cmdline token)
    then (token, (get_guid (part ++ ab_suffix)).1) ∷ rest
    else rest

concat_name :
    (str1 str2 : Bytes)
    → length str1 + length str2 ≤ 31
    → avb_str_concat 32 str1 str2 ≡ some (str1 ++ (str2 ++ (0 ∷ [])))
unfolding avb_str_concat avb_safe_add
concat_name str1 str2 h = ground arith

round_lem :
    (get_guid : Bytes → AvbIoResult × Bytes) (cmdline ab_suffix part token : Bytes)
    (ret : Option Bytes)
    → (get_guid (part ++ ab_suffix)).0 ≡ io_ok
    → length part + length ab_suffix ≤ 31
    → is_present (avb_strstr cmdline token) ≡ true
    → 1 ≤ length token
    → (out : Bytes) × (guid_round get_guid cmdline ab_suffix part token ret Plenty
        ≡ going (some out) Plenty)
      × ReplacesTo token (get_guid (part ++ ab_suffix)).1 (or_else ret cmdline) out
unfolding guid_round
round_lem get_guid cmdline ab_suffix part token ret io room present h =
    let (out, e, t) =
      replace_token token (get_guid (part ++ ab_suffix)).1 (or_else ret cmdline) h in
    let name = concat_name part ab_suffix room in (out, rw (present, name, io, e), t)

round_absent :
    (get_guid : Bytes → AvbIoResult × Bytes) (cmdline ab_suffix part token : Bytes)
    (ret : Option Bytes)
    → is_present (avb_strstr cmdline token) ≡ false
    → guid_round get_guid cmdline ab_suffix part token ret Plenty ≡ going ret Plenty
unfolding guid_round
round_absent get_guid cmdline ab_suffix part token ret absent = rw (absent, guid_round)

-- A partition name that fits the buffer with the suffix, and a token.
abbrev IsRound : Bytes → Bytes × Bytes → Type 0
IsRound ab_suffix (part, token) = (length part + length ab_suffix ≤ 31) × (1 ≤ length token)

guid_loop_lem :
    (get_guid : Bytes → AvbIoResult × Bytes) (cmdline ab_suffix : Bytes)
    (rounds : List (Bytes × Bytes)) (ret : Option Bytes)
    → ((part : Bytes) → (get_guid part).0 ≡ io_ok)
    → All (IsRound ab_suffix) rounds
    → (ret' : Option Bytes) × (guid_loop get_guid cmdline ab_suffix rounds ret Plenty
        ≡ going ret' Plenty)
      × Replacements
          (guids get_guid cmdline ab_suffix rounds)
          (or_else ret cmdline)
          (or_else ret' cmdline)
unfolding guid_loop
guid_loop_lem get_guid cmdline ab_suffix [] ret io h = (ret, refl, done)
guid_loop_lem get_guid cmdline ab_suffix ((part, token) ∷ rounds) ret io ((room, p), h) =
    elim (Bool-cases (is_present (avb_strstr cmdline token))) [
      | inl present ↦
          let (out, e, t) =
            round_lem get_guid cmdline ab_suffix part token ret (io (part ++ ab_suffix)) room
              present p in
          let (ret', e', t') = guid_loop_lem get_guid cmdline ab_suffix rounds (some out) io h in
          (ret', rw (e, guid_loop) e', rw present (next t t'))
      | inr absent ↦
          let (ret', e', t') = guid_loop_lem get_guid cmdline ab_suffix rounds ret io h in
          let stays : guid_round get_guid cmdline ab_suffix part token ret Plenty
              ≡ going ret Plenty =
            round_absent get_guid cmdline ab_suffix part token ret absent in
          (ret', rw (stays, guid_loop) e', rw absent t')
    ]

guid_rounds-IsRound :
    (using_boot_for_vbmeta : Bool) (ab_suffix : Bytes)
    → length ab_suffix ≤ 25
    → All (IsRound ab_suffix) (guid_rounds using_boot_for_vbmeta)
guid_rounds-IsRound true ab_suffix h =
    ((omega arith, omega arith), ((omega arith, omega arith), ((omega arith, omega arith), tt)))
guid_rounds-IsRound false ab_suffix h =
    ((omega arith, omega arith), ((omega arith, omega arith), ((omega arith, omega arith), tt)))

sub_cmdline_end :
    (get_guid : Bytes → AvbIoResult × Bytes) (cmdline ab_suffix : Bytes)
    (using_boot_for_vbmeta : Bool) (substitutions : List (Bytes × Bytes)) (ret : Option Bytes)
    → guid_loop get_guid cmdline ab_suffix (guid_rounds using_boot_for_vbmeta) none Plenty
      ≡ going ret Plenty
    → avb_sub_cmdline get_guid cmdline ab_suffix using_boot_for_vbmeta substitutions Plenty
      ≡ subst_loop substitutions (or_else ret cmdline) Plenty
unfolding avb_sub_cmdline avb_strdup
sub_cmdline_end get_guid cmdline ab_suffix using_boot_for_vbmeta substitutions none e =
    rw (e, avb_sub_cmdline)
sub_cmdline_end get_guid cmdline ab_suffix using_boot_for_vbmeta substitutions (some ret) e =
    rw (e, avb_sub_cmdline)

-- The partition that each placeholder of a GUID stands for, in the order of the replacements.
abbrev pub placeholders : Bool → List (Bytes × Bytes)
placeholders true =
    (part_system, token_system) ∷ (part_boot, token_boot) ∷ (part_boot, token_vbmeta) ∷ []
placeholders false =
    (part_system, token_system) ∷ (part_boot, token_boot) ∷ (part_vbmeta, token_vbmeta) ∷ []

same_rounds :
    (using_boot_for_vbmeta : Bool)
    → guid_rounds using_boot_for_vbmeta ≡ placeholders using_boot_for_vbmeta
same_rounds true = refl
same_rounds false = refl

-- With memory to spare, a GUID for every partition, a suffix of at most 25 bytes and no empty
-- token, the result is the command line with the token of each partition that it held at first
-- replaced by the GUID, in the order system, boot, vbmeta, and then each token of the list by its
-- value, in the list's order. The partition of the vbmeta token is boot when
-- `using_boot_for_vbmeta`.
pub sub_cmdline_exact :
    (get_guid : Bytes → AvbIoResult × Bytes) (cmdline ab_suffix : Bytes)
    (using_boot_for_vbmeta : Bool) (substitutions : List (Bytes × Bytes))
    → ((part : Bytes) → (get_guid part).0 ≡ io_ok)
    → length ab_suffix ≤ 25
    → All HasToken substitutions
    → (out : Bytes) × (avb_sub_cmdline get_guid cmdline ab_suffix using_boot_for_vbmeta
          substitutions Plenty
        ≡ (some out, Plenty))
      × Replacements
          (guids get_guid cmdline ab_suffix (placeholders using_boot_for_vbmeta) ++ substitutions)
          cmdline
          out
sub_cmdline_exact get_guid cmdline ab_suffix using_boot_for_vbmeta substitutions io room h =
    let (ret, e, t) =
      guid_loop_lem get_guid cmdline ab_suffix (guid_rounds using_boot_for_vbmeta) none io
        (guid_rounds-IsRound using_boot_for_vbmeta ab_suffix room) in
    let (out, e', t') = subst_loop_lem substitutions (or_else ret cmdline) h in
    (
      out,
      sub_cmdline_end get_guid cmdline ab_suffix using_boot_for_vbmeta substitutions ret e ∙ e',
      subst
          (λ rounds.
            Replacements (guids get_guid cmdline ab_suffix rounds ++ substitutions) cmdline out)
          (same_rounds using_boot_for_vbmeta) (Replacements-append t t'),
    )
