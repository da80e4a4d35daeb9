-- ===== src/Config/Load.antt =====
-- src/config.c: the image that the configuration names, the reading of a whole configuration, and the
-- search for its file. The shell's expansion `wordexp` and the loading of an image are arguments.
use dewlock.Base.{
  ℕ, zero, suc, ◌+◌, ◌-◌, Bool, ◌&&◌, Option, none, some, List, [], ◌∷◌, ◌++◌, ◌==◌, if◌then◌else◌,
  codes, length, set,
}
use dewlock.Strings.{lenient_strcmp, is_zero, c_string, strchr}
use dewlock.State.{Image}
use dewlock.Config.{Cfg, read_options}

-- `join_args` for at least one argument: the bytes that `strcpy` and the loop write, from what is
-- written already. The last separator becomes the NUL.
unfoldable pub join_loop : List (List ℕ) → List ℕ → List ℕ
join_loop [] res = res
join_loop (arg ∷ args) res = join_loop args ((res ++ arg) ++ b' ' ∷ [])

-- The length that `malloc` is given.
unfoldable pub joined_size : List (List ℕ) → ℕ
joined_size [] = 0
joined_size (arg ∷ args) = length arg + 1 + joined_size args

unfoldable pub join_args : List (List ℕ) → List ℕ
unfolding join_loop joined_size
join_args args = c_string (set (join_loop args []) (joined_size args - 1) 0)

-- One round of the loop that escapes spaces: `strstr` finds the first two spaces in a row, and
-- `memmove` makes room for a backslash between them.
abbrev pub onto_path : ℕ → Option (List ℕ) → Option (List ℕ)
onto_path b none = none
onto_path b (some path) = some (b ∷ path)

unfoldable pub escape_pair : List ℕ → Option (List ℕ)
escape_pair [] = none
escape_pair (b ∷ []) = none
escape_pair (b ∷ c ∷ bs) =
    let further = onto_path b (escape_pair (c ∷ bs)) in
    if b == b' ' && c == b' ' then some (b ∷ b'\\' ∷ c ∷ bs) else further

-- The loop, with fuel; none if the fuel runs out.
unfoldable pub escape_loop : ℕ → List ℕ → Option (List ℕ)
escape_loop zero path = none
escape_loop (suc fuel) path = elim (escape_pair path) [
  | none ↦ some path
  | some longer ↦ escape_loop fuel longer
]

-- What `wordexp` makes of a text (its words, or none for an error), and the image that
-- `bg_load_image` reads from a path. `unwritten` is the text that is found where `join_args` of no words
-- points: in the default build its assertion is compiled out, it asks `malloc` for 0 bytes, puts a NUL into
-- the byte before them, and goes on. That byte is taken to be one that the program does not read.
pub record Outside : Type 0 where
  pub wordexp : List ℕ → Option (List (List ℕ))
  pub bg_load_image : List ℕ → Option ℕ
  pub readable : List ℕ → Bool
  pub unwritten : List ℕ

-- How `load_image` ends: the loop would not, or it returns.
pub data Loading : Type 0 where
  endless : Loading
  loads : Cfg → List Image → Loading

-- The output and the path of `[[<output>]:]<path>`, and what the configuration keeps of the text,
-- which `*separator = '\0'` cuts.
pub record ImageName : Type 0 where
  pub output_name : Option (List ℕ)
  pub path : List ℕ
  pub kept : List ℕ

abbrev named_output : List ℕ → Option (List ℕ)
named_output [] = none
named_output (b ∷ bs) = some (b ∷ bs)

abbrev cut_name : List ℕ → Option (List ℕ × List ℕ) → ImageName
cut_name raw none = record { output_name = none; path = raw; kept = raw }
cut_name raw (some (before, behind)) = record {
  output_name = named_output before;
  path = behind;
  kept = before;
}

unfoldable pub image_name : List ℕ → ImageName
image_name raw = cut_name raw (strchr b':' raw)

-- The loop that takes out the first image of the same output.
unfoldable pub remove_image : Option (List ℕ) → List Image → List Image
remove_image name [] = []
remove_image name (i ∷ images) =
    let rest = i ∷ remove_image name images in
    if is_zero (lenient_strcmp i.output_name name) then images else rest

unfoldable pub insert_loaded : Cfg → Option (List ℕ) → List ℕ → Option ℕ → List Image → Loading
insert_loaded cfg name path none images = loads cfg images
insert_loaded cfg name path (some surface) images =
    loads cfg (record { path = path; output_name = name; cairo_surface = surface } ∷ images)

-- The path behind the expansion.
unfoldable pub join_words : Outside → List (List ℕ) → List ℕ
join_words out [] = out.unwritten
join_words out (word ∷ words) = join_args (word ∷ words)

-- From the call of `wordexp` on.
unfoldable pub insert_expanded :
    Outside → Cfg → Option (List ℕ) → List ℕ → Option (List (List ℕ)) → List Image → Loading
insert_expanded out cfg name path none images =
    insert_loaded cfg name path (out.bg_load_image path) images
insert_expanded out cfg name path (some words) images =
    let joined = join_words out words in
    insert_loaded cfg name joined (out.bg_load_image joined) images

unfoldable pub insert_escaped :
    Outside → Cfg → Option (List ℕ) → Option (List ℕ) → List Image → Loading
insert_escaped out cfg name none images = endless
insert_escaped out cfg name (some path) images =
    insert_expanded out cfg name path (out.wordexp path) images

unfoldable pub load_named : Outside → Cfg → ImageName → List Image → Loading
load_named out cfg i images =
    insert_escaped out (record cfg { path = some i.kept }) i.output_name
      (escape_loop (suc (length i.path)) i.path) (remove_image i.output_name images)

abbrev pub load_path : Outside → Cfg → Option (List ℕ) → List Image → Loading
load_path out cfg none images = loads cfg images
load_path out cfg (some raw) images = load_named out cfg (image_name raw) images

unfoldable pub load_image : Outside → Cfg → List Image → Loading
load_image out cfg images = load_path out cfg cfg.path images

unfoldable pub cfg_read : Outside → Cfg → Option (List ℕ) → List Image → Loading
cfg_read out cfg file images = load_image out (read_options cfg file) images

-- `config_paths`, with the default SYSCONFDIR.
abbrev pub config_paths : List (List ℕ)
config_paths =
    codes "$XDG_CONFIG_HOME/dewlock/config"
    ∷ codes "$HOME/.config/dewlock/config"
    ∷ codes "/etc/dewlock/config"
    ∷ []

-- The first word of an expansion; `strdup` of the NULL behind no words crashes.
pub data Found : Type 0 where
  nowhere crashes : Found
  at : List ℕ → Found

unfoldable pub find_path : Outside → List (List ℕ) → Found
find_path out [] = nowhere
find_path out (p ∷ paths) =
    let further = find_path out paths in
    elim (out.wordexp p) [
      | none ↦ further
      | some words ↦ elim words [
        | [] ↦ crashes
        | word ∷ others ↦ if out.readable word then at word else further
      ]
    ]

unfoldable pub cfg_path : Outside → Found
unfolding find_path
cfg_path out = find_path out config_paths
