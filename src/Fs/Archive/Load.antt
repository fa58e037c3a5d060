-- ===== src/Fs/Archive/Load.antt =====
-- The whole archive.
use quaros.Base.{
  ℕ, zero, suc, ◌+◌, ◌%◌, ◌^◌, ◌≤◌, ◌<◌, ◌≡◌, ◌≢◌, ◌⊎◌, refl, ap, ◌∙◌, true, false, List, [], ◌∷◌,
  length, All, done, arith, ltb, leb,
}
use quaros.Ram.{Mem, load32}
use quaros.PageAlloc.{Machine}
use quaros.PageAlloc.FreeList.{IsPage, Links, Pool}
use quaros.Fs.{File, Fs, ft_regular, update, max_files, empty_file}
use quaros.Fs.Archive.{load_members, init_fs}
use quaros.Fs.Archive.Layout.{Member, behind, Archive, Loaded, IsHeader-same}
use quaros.Fs.Archive.Member.{Holds, load_member-Loaded}

-- The address lies outside the page.
abbrev Outside : ℕ → ℕ → Type 0
Outside x p = (x < p) ⊎ (p + 4096 ≤ x)

other_pages :
    (m : Mem) (p head x : ℕ) (ps : List ℕ)
    → IsPage p
    → p ≤ x
    → x < p + 4096
    → All (λ q. p ≢ q) ps
    → Links m head ps
    → All (Outside x) ps
other_pages m p head x [] ip lo hi fresh l = tt
other_pages m p head x (q ∷ ps) ip lo hi fresh l =
    let iq = l.1 in
    let ne = fresh.0 in
    (omega (arith, ip, iq, ne), other_pages m p (load32 m q) x ps ip lo hi fresh.1 l.3)

-- The file that a member becomes.
abbrev member_file : ℕ → Member → ℕ → File → File
member_file id x p f = record f {
  id = id;
  size = x.size;
  type = ft_regular;
  in_use = true;
  name = x.name;
  contents = p;
}

-- What loading leaves: the members in the table and in pages, and the rest as it was.
record After (r : Mem) (s : Fs) (cnt id arp : ℕ) (xs : List Member) (ps rest : List ℕ) (s' : Fs)
    : Type 0 where
  loaded : Loaded r s'.files s'.machine.mem cnt id arp xs
  pool : Pool s'.machine rest
  before : (j : ℕ) → j < cnt → s'.files j ≡ s.files j
  later : (j : ℕ) → cnt + length xs ≤ j → s'.files j ≡ s.files j
  elsewhere : (x : ℕ) → All (Outside x) ps → s'.machine.mem x ≡ s.machine.mem x

-- One member loaded to page `p`, and then the others.
After-cons :
    (r : Mem) (x : Member) (xs : List Member) (cnt id arp start last p : ℕ) (ps rest : List ℕ)
    (s s' : Fs) (h : Machine)
    → start ≤ arp
    → x.size ≤ 4096
    → arp + 60 + x.size ≤ last
    → ((z : ℕ) → start ≤ z → z < last → s.machine.mem z ≡ r z)
    → Pool s.machine (p ∷ ps)
    → (last ≤ p) ⊎ (p + 4096 ≤ start)
    → Holds s.machine.mem p (arp + 60) x.size h.mem
    → After r
        (record { machine = h; files = update s.files cnt (member_file id x p (s.files cnt)) })
        (cnt + 1)
        (id + 1)
        (behind arp x)
        xs
        ps
        rest
        s'
    → After r s cnt id arp (x ∷ xs) (p ∷ ps) rest s'
After-cons r x xs cnt id arp start last p ps rest s s' h lo small inside same l off holds y =
    record {
      loaded = (
        rw at_cnt (record {
          numbered = refl;
          named = refl;
          sized = refl;
          regular = refl;
          used = refl;
          copied = λ i lt.
              kept i (omega (arith, off))
              ∙ (holds.copied i lt
                  ∙ ap (λ b. b % 256) (same (arp + 60 + i) (omega arith) (omega arith)));
          cleared = λ i le lt. kept i lt ∙ holds.cleared i le lt;
        }),
        y.loaded,
      );
      pool = y.pool;
      before = λ j lt. y.before j (omega arith) ∙ ground arith;
      later = λ j le. y.later j (omega arith) ∙ ground arith;
      elsewhere = λ z out. y.elsewhere z out.1 ∙ holds.outside z out.0;
    }
  where
    at_cnt : s'.files cnt ≡ member_file id x p (s.files cnt)
    at_cnt = y.before cnt (omega arith) ∙ ground arith

    kept : (i : ℕ) → i < 4096 → s'.machine.mem (p + i) ≡ h.mem (p + i)
    kept i lt = y.elsewhere (p + i) (
        other_pages s.machine.mem p (load32 s.machine.mem p) (p + i) ps l.1 (omega arith)
          (omega arith) l.2 l.3)

load_members-After :
    (r : Mem) (xs : List Member) (fuel cnt id arp start last : ℕ) (s : Fs) (ps : List ℕ)
    → start ≤ arp
    → last + 1 < 2 ^ 32
    → Archive r arp last xs
    → ((x : ℕ) → start ≤ x → x < last → s.machine.mem x ≡ r x)
    → Pool s.machine ps
    → All (λ p. (last ≤ p) ⊎ (p + 4096 ≤ start)) ps
    → length xs ≤ length ps
    → cnt + length xs < 32
    → id + length xs < 2 ^ 32
    → length xs < fuel
    → (s' : Fs) × (rest : List ℕ) × (load_members fuel cnt id arp last s
        ≡ done (id + length xs, s'))
      × After r s cnt id arp xs ps rest s'
unfolding load_members
load_members-After r xs zero cnt id arp start last s ps lo hi a same l apart many room ids enough =
    absurd (omega arith)
load_members-After r [] (suc fuel) cnt id arp start last s ps lo hi a same l apart many room ids
      enough =
    let stop : ltb arp last ≡ false = ground arith in
    (
      s,
      ps,
      rw (stop, load_members) (ap (λ n. done (n, s)) (omega arith)),
      record {
        loaded = tt;
        pool = l;
        before = λ j lt. refl;
        later = λ j le. refl;
        elsewhere = λ x out. refl;
      },
    )
load_members-After r (x ∷ xs) (suc fuel) cnt id arp start last s [] lo hi a same l apart many room
      ids enough =
    absurd (omega arith)
load_members-After r (x ∷ xs) (suc fuel) cnt id arp start last s (p ∷ ps) lo hi a same l apart many
      room ids enough =
    let (header, small, inside, more) = a in
    let off = apart.0 in
    let (h, ran, l₁, holds) =
      load_member-Loaded arp cnt id x.size p x.name s ps
        (IsHeader-same r s.machine.mem arp x.name x.size
          (λ y y_lo y_hi. same y (omega arith) (omega arith)) header)
        l small (omega arith) (omega (arith, off)) in
    let files = update s.files cnt (member_file id x p (s.files cnt)) in
    let s₁ : Fs = record { machine = h; files = files } in
    let (s', rest, ran', y) =
      load_members-After r xs fuel (cnt + 1) (id + 1) (behind arp x) start last s₁ ps (omega arith)
        hi more (λ z z_lo z_hi. holds.outside z (omega (arith, off)) ∙ same z z_lo z_hi) l₁ apart.1
        (omega arith) (omega arith) (omega arith) (omega arith) in
    let test : ltb arp last ≡ true = ground arith in
    let free : leb max_files (cnt + 1) ≡ false = ground arith in
    let next_id : (id + 1) % 2 ^ 32 ≡ id + 1 = omega arith in
    (
      s',
      rest,
      rw (test, ran, free, next_id, load_members) (ran' ∙ ap (λ n. done (n, s')) (omega arith)),
      After-cons r x xs cnt id arp start last p ps rest s s' h lo small inside same l off holds y,
    )

-- For an archive below 4 GB of fewer than 32 members, each of at most a page, with their names
-- and decimal sizes in the headers, and a free page for each, none of them overlapping the
-- archive, init_fs succeeds: the first files of the table are the members in order, numbered from
-- 0, with their names and sizes, in use, each with its bytes and zeros behind them in its page;
-- the other files are empty, and the free pages stay well formed.
pub init_fs-Loaded :
    (start last : ℕ) (xs : List Member) (s : Fs) (ps : List ℕ)
    → start + 8 < 2 ^ 32
    → last + 1 < 2 ^ 32
    → Archive s.machine.mem (start + 8) last xs
    → Pool s.machine ps
    → All (λ p. (last ≤ p) ⊎ (p + 4096 ≤ start)) ps
    → length xs ≤ length ps
    → length xs < 32
    → (s' : Fs) × (rest : List ℕ) × (init_fs start last s ≡ done (length xs, s'))
      × Loaded s.machine.mem s'.files s'.machine.mem 0 0 (start + 8) xs
      × ((j : ℕ) → length xs ≤ j → s'.files j ≡ empty_file)
      × Pool s'.machine rest
unfolding init_fs
init_fs-Loaded start last xs s ps lo hi a l apart many room =
    let first : (start + 8) % 2 ^ 32 ≡ start + 8 = omega arith in
    let zero_add : 0 + length xs ≡ length xs = omega arith in
    let empty : Fs = record s { files = λ _. empty_file } in
    let (s', rest, ran, y) =
      load_members-After s.machine.mem xs 32 0 0 (start + 8) start last empty ps (omega arith) hi a
        (λ x x_lo x_hi. refl) l apart many (omega arith) (omega arith) room in
    (
      s',
      rest,
      ap (λ n. load_members 32 0 0 n last empty) first ∙ (ran ∙ ap (λ n. done (n, s')) zero_add),
      y.loaded,
      λ j le. y.later j (omega arith),
      y.pool,
    )
