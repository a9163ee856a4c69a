-- ===== src/Capture/Events/Whole.antt =====
-- An event that was written is read back, with whatever the reading of IPv6 addresses makes of them.
use fibratus.Prelude.{
  ℕ, ◌+◌, ◌%◌, ◌<◌, ◌≡◌, refl, true, false, [], ◌∷◌, ◌++◌, Option, none, some, length, map,
  if◌then◌else◌, ltb, All, arith, subst,
}
use fibratus.Prelude.Int.{u16_mod, u32_mod, u64_mod}
use fibratus.Capture.Bytes.{
  Bytes, done, ◌>>=◌, ByteOrder, write_uint16, write_uint32, write_uint64, sized,
}
use fibratus.Capture.Bytes.Placed.{
  Stands, begins, at, moves, past_byte, past_uint16, past_uint32, past_uint64, byte_at-Stands,
  uint16_at-Stands, uint32_at-Stands, uint64_at-Stands, lengths,
}
use fibratus.Capture.Sections.{SectionType, section, process_sec_v4, event_sec_v2, length-section}
use fibratus.Capture.Times.{TimeFormat, ParsesBack}
use fibratus.Capture.Maps.{IsMap, AllNew-nil}
use fibratus.Capture.Processes.{PeCodec, Process, marshal, write_envs}
use fibratus.Capture.Processes.Keeps.{KeepsPe}
use fibratus.Capture.Processes.Loops.{slice_between-Stands}
use fibratus.Capture.Events.{EventState, Param, carries_process, write_process, marshal_raw}
use fibratus.Capture.Events.Restoring.{Restored}
use fibratus.Capture.Events.Reading.{read_body, unmarshal_raw}
use fibratus.Capture.Events.Values.{written}
use fibratus.Capture.Events.Loops.{
  IsTag, named_tags, IsParam, back_param, params_bytes, write_params-kept, read_params-write,
  read_tags-write,
}
use fibratus.Capture.Events.Ends.{
  copied-full, names_size, read_names-Stands, PsFits, kept_ps, read_process-Stands,
}

module _ {tf : TimeFormat} (parses : ParsesBack tf) (o : ByteOrder) (to_ipv6 : Bytes → Bytes)
    {codec : PeCodec} (keeps : KeepsPe codec) where
  open tf use {Time, format}
  open codec use {Pe}

  -- What is written from the name on.
  unfoldable pub names_on : EventState (Param Time) Time Pe → Bytes
  names_on e =
      sized o e.name
      ++ (sized o e.category
          ++ (sized o e.description
              ++ (sized o e.host
                  ++ (sized o (format e.timestamp)
                      ++ (write_uint16 o (length e.params % u16_mod)
                          ++ (params_bytes parses codec o to_ipv6 e.params
                              ++ (write_uint16 o (length e.metadata % u16_mod)
                                  ++ (write_envs o e.metadata
                                      ++ write_process o tf codec e.type e.ps))))))))

  unfoldable pub event_bytes : EventState (Param Time) Time Pe → Bytes
  event_bytes e =
      write_uint64 o e.seq
      ++ (write_uint32 o e.pid ++ (write_uint32 o e.tid ++ (e.type ++ e.cpu ∷ names_on e)))

  -- What the widths of the format ask of an event.
  pub record IsEvent (e : EventState (Param Time) Time Pe) : Type 0 where
    pub seq_fits : e.seq < u64_mod
    pub pid_fits : e.pid < u32_mod
    pub tid_fits : e.tid < u32_mod
    pub type_size : length e.type ≡ 18
    pub name_short : length e.name < u16_mod
    pub category_short : length e.category < u16_mod
    pub description_short : length e.description < u16_mod
    pub host_short : length e.host < u16_mod
    pub few_params : length e.params < u16_mod
    pub each_param : All (IsParam parses codec o to_ipv6) e.params
    pub params_map : IsMap e.params
    pub few_tags : length e.metadata < u16_mod
    pub each_tag : All IsTag e.metadata
    pub tags_map : IsMap e.metadata
    pub ps_fits : PsFits o tf keeps e.ps
    pub all_short : length (written (marshal_raw o tf codec e)) < u32_mod

  -- An event as it comes back, its IPv6 addresses as `to_ipv6` reads them.
  abbrev pub restored_event :
      EventState (Param Time) Time Pe → EventState (ℕ × Restored Time) Time Pe
  restored_event e = record {
    seq = e.seq;
    pid = e.pid;
    tid = e.tid;
    type = e.type;
    cpu = e.cpu;
    name = e.name;
    category = e.category;
    description = e.description;
    host = e.host;
    timestamp = e.timestamp;
    params = map (back_param parses codec o to_ipv6) e.params;
    metadata = named_tags e.metadata;
    ps = kept_ps o tf keeps e.type e.ps;
  }

  marshal_raw-kept :
      (e : EventState (Param Time) Time Pe)
      → IsEvent e
      → marshal_raw o tf codec e ≡ done (event_bytes e)
  unfolding marshal_raw event_bytes names_on
  marshal_raw-kept e w = rw (write_params-kept parses codec o to_ipv6 e.params w.each_param)

  section_long : (size : ℕ) → 2 < length (section o SectionType.process process_sec_v4 0 size)
  section_long size = omega (arith, length-section o SectionType.process process_sec_v4 0 size)

  write_process_long :
      (type : Bytes) (ps : Option (Process Time Pe)) → 2 < length (write_process o tf codec type ps)
  unfolding write_process carries_process
  write_process_long type none = section_long 0
  write_process_long type (some ps) =
      elim (carries_process type)
        as (λ c.
          2
          < length (
              if c
              then section o SectionType.process process_sec_v4 0
                  (length (marshal o tf codec ps) % u32_mod)
                ++ marshal o tf codec ps
              else section o SectionType.process process_sec_v4 0 0)) [
                | true ↦ omega (lengths, section_long (length (marshal o tf codec ps) % u32_mod))
                | false ↦ section_long 0
              ]

  module _ {b : Bytes} (small : length b < u32_mod) where
    read_body-Stands :
        (e : EventState (Param Time) Time Pe) (seq pid tid : ℕ)
        → Stands b 35 (names_on e)
        → IsEvent e
        → read_body o tf to_ipv6 codec b 35 seq pid tid e.type e.cpu
          ≡ done (record (restored_event e) { seq = seq; pid = pid; tid = tid })
    unfolding names_on read_body
    read_body-Stands e seq pid tid s w =
        let long = write_process_long e.type e.ps in
        let (names, s1) =
          read_names-Stands parses o to_ipv6 small 35 e.name e.category e.description e.host
            e.timestamp _ s w.name_short w.category_short w.description_short w.host_short
            (omega (lengths, long)) in
        let n = names_size o tf e.name e.category e.description e.host e.timestamp in
        let m = length (params_bytes parses codec o to_ipv6 e.params) in
        let k = length (write_envs o e.metadata) in
        let s2 = past_uint16 o _ _ s1 in
        let s3 = moves (params_bytes parses codec o to_ipv6 e.params) s2 refl in
        let s4 = past_uint16 o _ _ s3 in
        let s5 = moves (write_envs o e.metadata) s4 refl in
        let nparams : length e.params % u16_mod ≡ length e.params = omega (arith, w.few_params) in
        let ntags : length e.metadata % u16_mod ≡ length e.metadata = omega (arith, w.few_tags) in
        rw (
          names,
          uint16_at-Stands small o (10 + 35 + n) _ _ s1 refl (omega arith),
          nparams,
          read_params-write parses codec o to_ipv6 small (35 + n) 0 [] e.params _ m
              (at s2 (omega arith)) w.each_param (omega arith) (omega (lengths, long)) w.params_map
              (AllNew-nil _ e.params),
          uint16_at-Stands small o (12 + (35 + n + m)) _ _ s3 (omega arith) (omega arith),
          ntags,
          read_tags-write parses codec o to_ipv6 small (35 + n + m) 0 [] e.metadata _ k
              (at s4 (omega arith)) w.each_tag (omega arith) (omega (lengths, long)) w.tags_map
              (AllNew-nil _ e.metadata),
          read_process-Stands parses o to_ipv6 small keeps (35 + n + m + k) e.type e.ps
              (at s5 (omega arith)) w.ps_fits,
        )

  starts :
      (e : EventState (Param Time) Time Pe)
      → Stands (event_bytes e) 0 (
          write_uint64 o e.seq
          ++ (write_uint32 o e.pid ++ (write_uint32 o e.tid ++ (e.type ++ e.cpu ∷ names_on e))))
  starts e = unfold event_bytes in begins (event_bytes e)

  long : (e : EventState (Param Time) Time Pe) → IsEvent e → ltb (length (event_bytes e)) 34 ≡ false
  unfolding event_bytes
  long e w =
      let many : 34 < length (event_bytes e) = omega (lengths, w.type_size) in ground (arith, many)

  event_bytes_short :
      (e : EventState (Param Time) Time Pe) → IsEvent e → length (event_bytes e) < u32_mod
  event_bytes_short e w =
      subst (λ b. length (written b) < u32_mod) (marshal_raw-kept e w) w.all_short

  pub event_unmarshal-restored :
      (e : EventState (Param Time) Time Pe)
      → IsEvent e
      → (marshal_raw o tf codec e >>= λ b. unmarshal_raw o tf to_ipv6 codec b event_sec_v2)
        ≡ done (restored_event e)
  unfolding unmarshal_raw
  event_unmarshal-restored e w =
      let small = event_bytes_short e w in
      let s0 = starts e in
      let s1 = past_uint64 o _ _ s0 in
      let s2 = past_uint32 o _ _ s1 in
      let s3 = past_uint32 o _ _ s2 in
      let size : 16 + length e.type ≡ 34 = omega (arith, w.type_size) in
      let s4 = moves e.type s3 size in
      rw (
        marshal_raw-kept e w,
        long e w,
        uint64_at-Stands small o 0 _ _ s0 refl w.seq_fits,
        uint32_at-Stands small o 8 _ _ s1 refl w.pid_fits,
        uint32_at-Stands small o 12 _ _ s2 refl w.tid_fits,
        slice_between-Stands o small 16 34 e.type _ s3 refl (omega (arith, w.type_size)),
        byte_at-Stands small 34 e.cpu _ s4 refl,
        copied-full 18 e.type w.type_size,
        read_body-Stands small e e.seq e.pid e.tid (past_byte s4) w,
      )
