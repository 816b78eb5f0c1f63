-- ===== src/Logging/Style.antt =====
-- What a log line leaves of the terminal's look, and in which look its pieces stand.
use steelmind_os.Base.{
  ℕ, ◌≤◌, ◌<◌, ◌≡◌, refl, ltb, le→leb, lt→leb, if◌then◌else◌, Bool-cases, inl, inr, Option, none,
  some, List, [], ◌∷◌, ◌++◌, length, drop, ◌-◌, map, append_assoc,
}
use steelmind_os.Terminal.Writer.{light, regular, bold}
use steelmind_os.Logging.{
  Level, rank, info_color, Record, Levels, Piece, named, Look, Stdout, print_place, log_graphics,
  log, opening, closing, core, at, at_end, said,
}

-- The look of a piece on a terminal that had the look `l`.
abbrev pub dressed : Look → Piece → Piece × Look
dressed l (named level) = (
  named level,
  record { foreground = info_color level; background = l.background; font_weight = bold },
)
dressed l (core n) =
    (core n, record { foreground = l.foreground; background = l.background; font_weight = bold })
dressed l (said text) = (
  said text,
  record { foreground = l.foreground; background = l.background; font_weight = regular },
)
dressed l p =
    (p, record { foreground = l.foreground; background = l.background; font_weight = light })

abbrev place_piece : List ℕ → ℕ → Piece
place_piece file line =
    if ltb 50 (length file) then at_end (drop (length file - 50) file) line else at file line

abbrev core_pieces : Option ℕ → List Piece
core_pieces none = []
core_pieces (some n) = core n ∷ []

abbrev place_pieces : Option (List ℕ × ℕ) → List Piece
place_pieces none = []
place_pieces (some (file, line)) = place_piece file line ∷ []

-- The pieces of a line.
abbrev pub line_pieces : Option ℕ → Record → List Piece
line_pieces cpu_index r =
    (opening ∷ named r.level ∷ [])
    ++ (core_pieces cpu_index ++ (place_pieces r.place ++ closing ∷ said r.args ∷ []))

abbrev record_of : Level → Option (List ℕ × ℕ) → List ℕ → Record
record_of level place args = record { level = level; place = place; args = args }

graphics-dressed :
    (cpu_index : Option ℕ) (level : Level) (place : Option (List ℕ × ℕ)) (args : List ℕ)
    (out : Stdout)
    → log_graphics cpu_index (record_of level place args) out ≡ record out {
      printed =
          out.printed
          ++ map (dressed out.look) (line_pieces cpu_index (record_of level place args));
    }
unfolding log_graphics print_place
graphics-dressed none level none args out = simp append_assoc
graphics-dressed (some n) level none args out = simp append_assoc
graphics-dressed none level (some (file, line)) args out =
    elim (Bool-cases (ltb 50 (length file))) [
      | inl e ↦ rw e (simp append_assoc)
      | inr e ↦ rw e (simp append_assoc)
    ]
graphics-dressed (some n) level (some (file, line)) args out =
    elim (Bool-cases (ltb 50 (length file))) [
      | inl e ↦ rw e (simp append_assoc)
      | inr e ↦ rw e (simp append_assoc)
    ]

-- A record that passes the graphics filter is printed as one line, whose pieces stand on the
-- terminal's background: the level in its color and the others in the terminal's foreground, each in
-- its weight. The terminal has its old look afterwards.
pub log-dressed :
    (levels : Levels) (cpu_index : Option ℕ) (r : Record) (out : Stdout)
    → rank r.level ≤ levels.graphics
    → (log levels cpu_index r out).1
      ≡ record out { printed = out.printed ++ map (dressed out.look) (line_pieces cpu_index r) }
unfolding log
log-dressed levels cpu_index r out h =
    rw (le→leb (rank r.level) levels.graphics h)
      (graphics-dressed cpu_index r.level r.place r.args out)

-- A record that passes neither filter leaves the terminal as it is and sends nothing.
log-filtered :
    (levels : Levels) (cpu_index : Option ℕ) (r : Record) (out : Stdout)
    → levels.graphics < rank r.level
    → levels.serial < rank r.level
    → log levels cpu_index r out ≡ ([], out)
unfolding log
log-filtered levels cpu_index r out h k =
    rw (lt→leb (rank r.level) levels.graphics h, lt→leb (rank r.level) levels.serial k) refl
