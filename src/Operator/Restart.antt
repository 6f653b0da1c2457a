-- ===== src/Operator/Restart.antt =====
-- A restart: what a checkpoint of the collector gives back.
-- JSON and base64 give back what they are given, as their documentation says, and the base64 of a
-- JSON object is not empty.
use kubetidy.Base.{◌≡◌, refl, ap, ◌∙◌, ◌≢◌, some, [], ◌∷◌}
use kubetidy.Base.Float.{Float64, nought}
use kubetidy.Base.Int.{pos}
use kubetidy.Base.Text.{Text}
use kubetidy.Histogram.{Config, Histogram, Snapshot, to_snapshot, sum_from, from_snapshot}
use kubetidy.Histogram.Checkpoint.{IsExact, from_snapshot-to_snapshot}
use kubetidy.Histogram.Layout.{IsValid}
use kubetidy.Operator.{
  Codec, encode_snapshot, decode_snapshot, metric_history, histogram_from_metric,
}
use kubetidy.Profile.{MetricHistory}

pub record IsFaithful {F : Type 0} (codec : Codec F) (s : Snapshot F) : Type 0 where
  pub bytes : Text
  pub marshalled : codec.marshal s ≡ some bytes
  pub unmarshalled : codec.unmarshal bytes ≡ some s
  pub not_empty : codec.encode_base64 bytes ≢ []
  pub decoded : codec.decode_base64 (codec.encode_base64 bytes) ≡ some bytes

module _ {F : Type 0} ⦃fl : Float64 F⦄ (codec : Codec F) where
  decode-not-empty :
      (t : Text) (raw : Text)
      → t ≢ []
      → codec.decode_base64 t ≡ some raw
      → decode_snapshot codec t ≡ codec.unmarshal raw
  unfolding decode_snapshot
  decode-not-empty [] raw n e = absurd (n refl)
  decode-not-empty (c ∷ t) raw n e = rw (decode_snapshot, e) refl

  encode-marshalled :
      (s : Snapshot F) (bytes : Text)
      → codec.marshal s ≡ some bytes
      → encode_snapshot codec s ≡ codec.encode_base64 bytes
  unfolding encode_snapshot
  encode-marshalled s bytes e = rw (encode_snapshot, e) refl

  -- The text of a snapshot is decoded to that snapshot.
  decode_snapshot-encode_snapshot :
      (s : Snapshot F)
      → IsFaithful codec s
      → decode_snapshot codec (encode_snapshot codec s) ≡ some s
  decode_snapshot-encode_snapshot s f =
      ap (decode_snapshot codec) (encode-marshalled s f.bytes f.marshalled)
      ∙ decode-not-empty (codec.encode_base64 f.bytes) f.bytes f.not_empty f.decoded
      ∙ f.unmarshalled

  from-decoded :
      (m : MetricHistory F) (fallback : Config F) (s : Snapshot F)
      → decode_snapshot codec m.histogram ≡ some s
      → histogram_from_metric codec m fallback ≡ from_snapshot s fallback
  unfolding histogram_from_metric
  from-decoded m fallback s e = rw (histogram_from_metric, e) refl

  -- A valid histogram that the codec gives back faithfully, whose half-life survives the conversion
  -- to seconds and whose reference time is not the instant 0, is the same after a checkpoint and a
  -- restart, with any layout to fall back on, except that its total is the sum of its weights.
  pub histogram_from_metric-metric_history :
      (h : Histogram F) (fallback : Config F)
      → IsFaithful codec (to_snapshot h)
      → IsValid h
      → IsExact h
      → h.ref_time ≢ some (pos 0)
      → histogram_from_metric codec (metric_history codec h) fallback
        ≡ record h { total = sum_from nought h.weights }
  unfolding metric_history
  histogram_from_metric-metric_history h fallback f v e r =
      from-decoded (metric_history codec h) fallback (to_snapshot h)
        (decode_snapshot-encode_snapshot (to_snapshot h) f)
      ∙ from_snapshot-to_snapshot h fallback v e r
