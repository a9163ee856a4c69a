-- ===== src/Capture/Events/RoundTrip.antt =====
-- An event that was written is read back, with the values that the format keeps.
use fibratus.Prelude.{ℕ, ◌≡◌, refl, ap, ◌∙◌, List, [], ◌∷◌, length, map, All}
use fibratus.Capture.Bytes.{Bytes, done, ◌>>=◌, ByteOrder}
use fibratus.Capture.Sections.{event_sec_v2}
use fibratus.Capture.Times.{TimeFormat, ParsesBack}
use fibratus.Capture.Processes.{PeCodec}
use fibratus.Capture.Processes.Keeps.{KeepsPe}
use fibratus.Capture.Events.{Value, Layout, EventState, Param, marshal_raw}
use fibratus.Capture.Events.Restoring.{Restored}
use fibratus.Capture.Events.Reading.{unmarshal_raw}
use fibratus.Capture.Events.Values.{IsKept, back}
use fibratus.Capture.Events.Loops.{IsParam, back_param}
use fibratus.Capture.Events.Whole.{IsEvent, restored_event, event_unmarshal-restored}

-- What Windows prints of the 16 bytes of an IPv6 address, `net.ParseIP` reads as these bytes.
pub record ReadsIpv6 (to_ipv6 : Bytes → Bytes) : Type 0 where
  pub reads : (a : Bytes) → length a ≡ 16 → to_ipv6 a ≡ a

module _ {tf : TimeFormat} (parses : ParsesBack tf) (o : ByteOrder) (to_ipv6 : Bytes → Bytes)
    {codec : PeCodec} (keeps : KeepsPe codec) where
  open tf use {Time}
  open codec use {Pe}

  -- An event as it comes back, IPv6 addresses whole.
  abbrev pub kept_event : EventState (Param Time) Time Pe → EventState (ℕ × Restored Time) Time Pe
  kept_event e = record (restored_event parses o to_ipv6 keeps e) {
    params = map (back_param parses codec o (λ a. a)) e.params;
  }

  back-ipv6 :
      ReadsIpv6 to_ipv6
      → {l : Layout} {v : Value Time} {str : Bytes} → IsKept o l v str
      → back o to_ipv6 l v str ≡ back o (λ a. a) l v str
  back-ipv6 r (IsKept.ipv6 a _ len) = ap Restored.ip (r.reads _ len)
  back-ipv6 r _ = refl

  params-ipv6 :
      ReadsIpv6 to_ipv6
      → (params : List (Bytes × Param Time)) → All (IsParam parses codec o to_ipv6) params
      → map (back_param parses codec o to_ipv6) params
        ≡ map (back_param parses codec o (λ a. a)) params
  params-ipv6 r [] h = refl
  params-ipv6 r ((name, p) ∷ params) h = rw (back-ipv6 r h.0.1, params-ipv6 r params h.1) refl

  -- For times whose texts parse back, IPv6 addresses whose printed texts parse back, and
  -- metadata of executables that keeps a process: an event of the widths of the format, whose
  -- parameters hold values of their types, none of them a float, a list of strings or of a type
  -- that is not written, is written without a panic, and what is written is read back as the
  -- event, where a parameter has the type of the capture, a value that is written as its text
  -- is that text, an IP address is in its long form, with the four bytes of an IPv4 address
  -- turned round on a big-endian machine, the addresses of a list are zeros, bytes are those
  -- behind the last two of their length, a tag with an empty key is left out, and the process
  -- is there just when the event creates or runs down one, with its user and its domain, and
  -- the metadata of a handle that is of no known type, lost.
  pub event_unmarshal-marshal :
      ReadsIpv6 to_ipv6
      → (e : EventState (Param Time) Time Pe) → IsEvent parses o to_ipv6 keeps e
      → (marshal_raw o tf codec e >>= λ b. unmarshal_raw o tf to_ipv6 codec b event_sec_v2)
        ≡ done (kept_event e)
  event_unmarshal-marshal r e w =
      event_unmarshal-restored parses o to_ipv6 keeps e w
      ∙ ap (λ ps. done (record (restored_event parses o to_ipv6 keeps e) { params = ps }))
          (params-ipv6 r e.params w.each_param)
