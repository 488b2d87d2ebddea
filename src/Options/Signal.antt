-- ===== src/Options/Signal.antt =====
-- aritfact/options/options.go, `GetOCIStopSignal` and `WithImageStopSignal`: the stop signal becomes
-- a label of the container.
use containerd_attributes_cl.Base.{
  Text, lit, ◌∷◌, if◌then◌else◌, is_empty, Result, ok, ◌>>=◌, Done, ◌≡◌, arith, ◌==◌, text_eq,
}
use containerd_attributes_cl.Content.{Entries, entry}
use containerd_attributes_cl.Options.Config.{ImageConfig}

-- containerd.StopSignalLabel
pub stop_signal_label : Text
unfolding lit
stop_signal_label = lit "io.containerd.image.config.stop-signal"

-- `parse_signal` is signal.ParseSignal.
unfoldable pub get_oci_stop_signal : (Text → Done) → Result ImageConfig → Text → Result Text
get_oci_stop_signal parse_signal config default_signal = parse_signal default_signal >>= λ _.
    config >>= λ c. ok (if is_empty c.stop_signal then default_signal else c.stop_signal)

-- The error, or the labels with the stop signal.
unfoldable pub with_image_stop_signal :
    (Text → Done) → Result ImageConfig → Text → Entries → Result Entries
unfolding get_oci_stop_signal stop_signal_label
with_image_stop_signal parse_signal config default_signal labels =
    get_oci_stop_signal parse_signal config default_signal >>= λ stop_signal.
    ok ((stop_signal_label, stop_signal) ∷ labels)

-- When `WithImageStopSignal` succeeds, the label holds the image's stop signal, or the default if the
-- image has none, and every other label is as it was.
pub entry-with_image_stop_signal :
    (parse_signal : Text → Done) (c : ImageConfig) (default_signal k : Text) (labels new : Entries)
    → with_image_stop_signal parse_signal (ok c) default_signal labels ≡ ok new
    → entry k new ≡ (
        if stop_signal_label == k
        then (if is_empty c.stop_signal then default_signal else c.stop_signal)
        else entry k labels)
unfolding with_image_stop_signal entry
entry-with_image_stop_signal parse_signal c default_signal k labels new h = ground arith
