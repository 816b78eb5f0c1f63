-- ===== src/Loader/Segments/Pages.antt =====
-- Mapping a range of pages, and changing their flags.
use steelmind_os.Base.{
  ℕ, zero, suc, ◌+◌, ◌*◌, ◌%◌, ◌≤◌, ◌<◌, ◌≡◌, ◌≢◌, refl, sym, ◌∙◌, ap, arith, ◌==◌, if◌then◌else◌,
  true, leb, ltb, ◌&&◌, Option, none, some, Checked, ok, panic, ass, unwrap, Returns, bind_inv,
}
use steelmind_os.Constants.{user_start, user_end}
use steelmind_os.Memory.Frames.{allocate_frame}
use steelmind_os.Memory.Mapping.{Flags, Memory, map_ram_user, map_frame}
use steelmind_os.Loader.Segments.Stores.{Outside}
use steelmind_os.Loader.Segments.{
  Mapper, Space, page_of, loading_flags, map_page, map_pages, change_flags, change_pages,
}

abbrev pub user_flags : Flags → Flags
user_flags flags = record flags { present = true; user_accessible = true }

pub unwrap-some : {A : Type 0} (o : Option A) (a : A) → unwrap o ≡ ok a → o ≡ some a
unwrap-some (some b) a h = ap some (ground arith)
unwrap-some none a h = absurd (ground arith)

module _ {T : Type 0} (M : Mapper T) (held : (frame offset : ℕ) → ℕ) where
  open M use {flags_of, map_to, map_sets, map_keeps, update_sets}

  -- What a page's mapping says, when it succeeds.
  map_ram_user-flags :
      (page : ℕ) (flags : Flags) (m m' : Memory T) (frame : ℕ)
      → map_ram_user map_to page flags m ≡ ok (frame, m')
      → (flags_of m'.table page ≡ some (user_flags flags))
        × ((q : ℕ) → page ≢ q → flags_of m'.table q ≡ flags_of m.table q)
  unfolding map_ram_user map_frame
  map_ram_user-flags page flags m m' frame h =
      let (_, _, h1) = bind_inv (ass (leb user_start page && ltb page user_end)) _ _ h in
      let (got, _, h2) = bind_inv (allocate_frame m.frames) _ _ h1 in
      let (f, _, h3) = bind_inv (unwrap got.0) _ _ h2 in
      let before : Memory T = record m { frames = got.1 } in
      let (after, run, h4) = bind_inv (map_frame map_to page (user_flags flags) f before) _ _ h3 in
      let mapped = unwrap-some (map_to page (user_flags flags) f before) after run in
      let same : after ≡ m' =
        ap (λ (c : Checked (ℕ × Memory T)). elim c [ ok r ↦ r.1 | panic ↦ m' ]) h4 in
      rw (sym same) (
        map_sets page (user_flags flags) f before after mapped,
        λ q ne. map_keeps page (user_flags flags) f before after q mapped ne,
      )

  pub record Mapped (n p : ℕ) (flags : Flags) (s s' : Space T) : Type 0 where
    pub inside :
        (q : ℕ)
        → q % 4096 ≡ 0
        → p ≤ q
        → q < p + n * 4096
        → flags_of s'.memory.table q ≡ some (user_flags (loading_flags flags))
    pub outside :
        (q : ℕ) → Outside p (n * 4096) q → flags_of s'.memory.table q ≡ flags_of s.memory.table q
    pub bytes : (a : ℕ) → Outside p (n * 4096) (page_of a) → s'.bytes a ≡ s.bytes a

  map_page-Mapped :
      (p : ℕ) (flags : Flags) (s s' : Space T)
      → p % 4096 ≡ 0
      → map_page M held p flags s ≡ ok s'
      → Mapped 1 p flags s s'
  unfolding map_page
  map_page-Mapped p flags s s' e h =
      let ((frame, m), run, h1) =
        bind_inv (map_ram_user map_to p (loading_flags flags) s.memory) _ _ h in
      let (here, there) = map_ram_user-flags p (loading_flags flags) s.memory m frame run in
      let same : record {
        memory = m;
        bytes = λ a. if page_of a == p then held frame (a % 4096) else s.bytes a;
      }
          ≡ s' =
        ap (λ (c : Checked (Space T)). elim c [ ok r ↦ r | panic ↦ s' ]) h1 in
      rw (sym same) (record {
        inside = λ q q0 lo hi. ground (arith, here);
        outside = λ q o. ground (arith, there q);
        bytes = λ a o. ground arith;
      })

  pub map_pages-Mapped :
      (n p : ℕ) (flags : Flags) (s s' : Space T)
      → p % 4096 ≡ 0
      → map_pages M held n p flags s ≡ ok s'
      → Mapped n p flags s s'
  unfolding map_pages
  map_pages-Mapped zero p flags s s' e h =
      let same : s ≡ s' = ap (λ (c : Checked (Space T)). elim c [ ok r ↦ r | panic ↦ s' ]) h in
      rw (sym same) (record {
        inside = λ q q0 lo hi. absurd (omega (arith, lo, hi));
        outside = λ q o. refl;
        bytes = λ a o. refl;
      })
  map_pages-Mapped (suc n) p flags s s' e h =
      let (s1, run, h1) = bind_inv (map_page M held p flags s) _ _ h in
      let one = map_page-Mapped p flags s s1 e run in
      let rest = map_pages-Mapped n (p + 4096) flags s1 s' (omega (arith, e)) h1 in
      record {
        inside = λ q q0 lo hi. ground (arith, one.inside q, rest.inside q, rest.outside q);
        outside = λ q o. ground (arith, one.outside q, rest.outside q);
        bytes = λ a o. ground (arith, one.bytes a, rest.bytes a);
      }

  pub record Changed (n p : ℕ) (flags : Flags) (s s' : Space T) : Type 0 where
    pub inside :
        (q : ℕ) → q % 4096 ≡ 0 → p ≤ q → q < p + n * 4096 → flags_of s'.memory.table q ≡ some flags
    pub outside :
        (q : ℕ) → Outside p (n * 4096) q → flags_of s'.memory.table q ≡ flags_of s.memory.table q
    pub bytes : s'.bytes ≡ s.bytes

  pub change_pages-Changed :
      (n p : ℕ) (flags old : Flags) (s : Space T)
      → p % 4096 ≡ 0
      → ((q : ℕ) → q % 4096 ≡ 0 → p ≤ q → q < p + n * 4096 → flags_of s.memory.table q ≡ some old)
      → Returns (Changed n p flags s) (change_pages M held n p flags s)
  unfolding change_pages change_flags
  change_pages-Changed zero p flags old s e w = (
    s,
    refl,
    record {
      inside = λ q q0 lo hi. absurd (omega (arith, lo, hi));
      outside = λ q o. refl;
      bytes = refl;
    },
  )
  change_pages-Changed (suc n) p flags old s e w =
      let (t, run, here, there) =
        update_sets p flags old s.memory.table (w p e (omega arith) (omega arith)) in
      let s1 : Space T = record s { memory = record s.memory { table = t } } in
      let (s', run', rest) =
        change_pages-Changed n (p + 4096) flags old s1 (omega (arith, e)) (λ q q0 lo hi.
          there q (λ pq. omega (arith, lo, pq)) ∙ w q q0 (omega (arith, lo)) (omega (arith, hi))) in
      rw run (
        s',
        run',
        record {
          inside = λ q q0 lo hi. ground (arith, here, rest.inside q, rest.outside q);
          outside = λ q o. ground (arith, there q, rest.outside q);
          bytes = rest.bytes;
        },
      )
