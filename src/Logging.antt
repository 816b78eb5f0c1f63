-- ===== src/Logging.antt =====
-- kernel/src/logging.rs: what the kernel's logger sends to the serial port and to the screen.
pub mod Style
use steelmind_os.Base.{
  ℕ, ◌+◌, ◌-◌, Bool, true, false, leb, ltb, if◌then◌else◌, Option, none, some, List, [], ◌∷◌, ◌++◌,
  length, drop,
}
use steelmind_os.Terminal.Color.{Color, color}
use steelmind_os.Terminal.Writer.{FontWeight, light, regular, bold}

-- The levels of the crate `log`, with their numbers; a `LevelFilter` is such a number, or 0 for `Off`.
pub data Level : Type 0 where
  error warn info debug trace : Level

abbrev pub rank : Level → ℕ
rank error = 1
rank warn = 2
rank info = 3
rank debug = 4
rank trace = 5

abbrev pub info_color : Level → Color
info_color error = color 255 50 50
info_color warn = color 255 200 0
info_color info = color 220 220 220
info_color debug = color 0 40 255
info_color trace = color 130 130 130

-- Texts are lists of bytes. `place` is the file and the line, where both are known.
pub record Record : Type 0 where
  pub level : Level
  pub place : Option (List ℕ × ℕ)
  pub args : List ℕ

-- The two atomic variables.
pub record Levels : Type 0 where
  pub serial : ℕ
  pub graphics : ℕ

abbrev pub set_serial_log_level : ℕ → Levels → Levels
set_serial_log_level level l = record l { serial = level }

abbrev pub set_graphics_log_level : ℕ → Levels → Levels
set_graphics_log_level level l = record l { graphics = level }

-- The crate's own `set_logger` and `set_max_level` are left out; the filter is these two.
abbrev pub init_logging : (serial_level graphics_level : ℕ) → Levels → Levels
init_logging serial_level graphics_level l =
    set_graphics_log_level graphics_level (set_serial_log_level serial_level l)

-- The pieces of a line, each the arguments of one `print!`.
pub data Piece : Type 0 where
  opening closing : Piece
  named : Level → Piece
  core : ℕ → Piece
  at : List ℕ → ℕ → Piece
  at_end : List ℕ → ℕ → Piece
  said : List ℕ → Piece

pub record Look : Type 0 where
  pub foreground : Color
  pub background : Color
  pub font_weight : FontWeight

-- The locked terminal: its look, and what was printed with which look, in order.
pub record Stdout : Type 0 where
  pub look : Look
  pub printed : List (Piece × Look)

abbrev pub set_foreground : Color → Stdout → Stdout
set_foreground c out = record out { look = record out.look { foreground = c } }

abbrev pub set_background : Color → Stdout → Stdout
set_background c out = record out { look = record out.look { background = c } }

abbrev pub set_font_weight : FontWeight → Stdout → Stdout
set_font_weight w out = record out { look = record out.look { font_weight = w } }

abbrev pub print : Piece → Stdout → Stdout
print p out = record out { printed = out.printed ++ (p, out.look) ∷ [] }

abbrev pub print_core : Option ℕ → Stdout → Stdout
print_core none out = out
print_core (some n) out = print (core n) out

-- Of a long file name, the last 50 bytes.
unfoldable pub print_place : Option (List ℕ × ℕ) → Stdout → Stdout
print_place none out = out
print_place (some (file, line)) out =
    if ltb 50 (length file)
    then print (at_end (drop (length file - 50) file) line) out
    else print (at file line) out

-- The second half of `log`.
unfoldable pub log_graphics : Option ℕ → Record → Stdout → Stdout
log_graphics cpu_index r out =
    let foreground = out.look.foreground in
    let background = out.look.background in
    let font = out.look.font_weight in
    let a = set_font_weight light (set_background background (set_foreground foreground out)) in
    let b = set_font_weight bold (set_foreground (info_color r.level) (print opening a)) in
    let c = set_foreground foreground (print (named r.level) b) in
    let d = set_font_weight light (print_core cpu_index c) in
    let e = set_font_weight regular (print closing (print_place r.place d)) in
    let f = print (said r.args) e in
    set_font_weight font (set_background background (set_foreground foreground f))

abbrev serial_core : Option ℕ → List Piece
serial_core none = []
serial_core (some n) = core n ∷ []

abbrev serial_place : Option (List ℕ × ℕ) → List Piece
serial_place none = []
serial_place (some (file, line)) = at file line ∷ []

-- The first half of `log`.
unfoldable pub log_serial : Option ℕ → Record → List Piece
log_serial cpu_index r =
    (opening ∷ named r.level ∷ [])
    ++ (serial_core cpu_index ++ (serial_place r.place ++ said r.args ∷ []))

-- What goes to the serial port, and the terminal after it. `cpu_index` is that of the core local data.
unfoldable pub log : Levels → Option ℕ → Record → Stdout → List Piece × Stdout
log levels cpu_index r out = (
  if leb (rank r.level) levels.serial then log_serial cpu_index r else [],
  if leb (rank r.level) levels.graphics then log_graphics cpu_index r out else out,
)
