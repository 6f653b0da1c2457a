-- ===== src/Operator/Store/Json.antt =====
-- What the JSON between the client and the server keeps of an object. A whole float64 is written
-- without a fraction, and what has no fraction is read as an int64, so a number may come back as a
-- whole number that `==` cannot tell from it. NaN and the infinities are refused by the encoder.
use kubetidy.Base.{◌≡◌, refl, ◌⊎◌, inl, inr, true, Option, none, some, List, [], ◌∷◌}
use kubetidy.Base.Float.{Float64, of_int}
use kubetidy.Base.Int.{ℤ}
use kubetidy.Base.Text.{Text, codes}
use kubetidy.Profile.{
  MetricHistory, ContainerHistory, Status, UsageProfile, Value, text, whole, number, object, array,
  Entries, Items, no_item, item, lookup_key, as_map, as_text, nested_map, nested_string, as_float,
  as_int64, nested_float, nested_int64, metric_from_map, metric_in, container_from,
  containers_from_items, as_containers, status_from_map, target_in, spec_in, metadata_text,
}

module _ {F : Type 0} ⦃fl : Float64 F⦄ where
  -- The same number, or one that is equal to it.
  abbrev pub SameFloat : F → F → Type 0
  SameFloat sent read = (read ≡ sent) ⊎ (fl.eq read sent ≡ true)

  mutual
    pub data SameValue : Value F → Value F → Type 0 where
      same_text : {s : Text} → SameValue (text s) (text s)
      same_whole : {n : ℤ} → SameValue (whole n) (whole n)
      same_number : {x : F} → SameValue (number x) (number x)
      as_whole : {x : F} {n : ℤ} → fl.eq (of_int n) x ≡ true → SameValue (number x) (whole n)
      same_object :
          {m n : Entries F}
          → ((key : Text) → SameOption (lookup_key key m) (lookup_key key n))
          → SameValue (object m) (object n)
      same_array : {is js : Items F} → SameItems is js → SameValue (array is) (array js)

    pub data SameOption : Option (Value F) → Option (Value F) → Type 0 where
      both_none : SameOption none none
      both_some : {v w : Value F} → SameValue v w → SameOption (some v) (some w)

    pub data SameItems : Items F → Items F → Type 0 where
      no_items : SameItems no_item no_item
      more_items :
          {v w : Value F} {is js : Items F}
          → SameValue v w
          → SameItems is js
          → SameItems (item v is) (item w js)

  -- Two maps whose keys hold the same.
  abbrev pub SameEntries : Entries F → Entries F → Type 0
  SameEntries m n = (key : Text) → SameOption (lookup_key key m) (lookup_key key n)

  pub data SameMap : Option (Entries F) → Option (Entries F) → Type 0 where
    no_map : SameMap none none
    both_map : {m n : Entries F} → SameEntries m n → SameMap (some m) (some n)

  pub record SameMetric (sent read : MetricHistory F) : Type 0 where
    pub avg : SameFloat sent.avg read.avg
    pub p50 : SameFloat sent.p50 read.p50
    pub p95 : SameFloat sent.p95 read.p95
    pub p99 : SameFloat sent.p99 read.p99
    pub max_seen : SameFloat sent.max_seen read.max_seen
    pub histogram : read.histogram ≡ sent.histogram

  pub record SameContainer (sent read : ContainerHistory F) : Type 0 where
    pub name : read.name ≡ sent.name
    pub cpu : SameMetric sent.cpu read.cpu
    pub memory : SameMetric sent.memory read.memory

  pub data SameContainers : List (ContainerHistory F) → List (ContainerHistory F) → Type 0 where
    no_containers : SameContainers [] []
    more_containers :
        {c d : ContainerHistory F} {cs ds : List (ContainerHistory F)}
        → SameContainer c d
        → SameContainers cs ds
        → SameContainers (c ∷ cs) (d ∷ ds)

  pub record SameStatus (sent read : Status F) : Type 0 where
    pub observed_since : read.observed_since ≡ sent.observed_since
    pub last_updated : read.last_updated ≡ sent.last_updated
    pub sample_count : read.sample_count ≡ sent.sample_count
    pub window_seconds : SameFloat sent.window_seconds read.window_seconds
    pub containers : SameContainers sent.containers read.containers

  -- A profile with the same names, target, times, count, containers and histograms, and the same
  -- figures up to `==`.
  pub record SameProfile (sent read : UsageProfile F) : Type 0 where
    pub name : read.name ≡ sent.name
    pub namespace : read.namespace ≡ sent.namespace
    pub spec : read.spec ≡ sent.spec
    pub status : SameStatus sent.status read.status

  as_text_kept : {o p : Option (Value F)} → SameOption o p → as_text p ≡ as_text o
  as_text_kept both_none = refl
  as_text_kept (both_some same_text) = refl
  as_text_kept (both_some same_whole) = refl
  as_text_kept (both_some same_number) = refl
  as_text_kept (both_some (as_whole e)) = refl
  as_text_kept (both_some (same_object h)) = refl
  as_text_kept (both_some (same_array h)) = refl

  as_float_kept : {o p : Option (Value F)} → SameOption o p → SameFloat (as_float o) (as_float p)
  as_float_kept both_none = inl refl
  as_float_kept (both_some same_text) = inl refl
  as_float_kept (both_some same_whole) = inl refl
  as_float_kept (both_some same_number) = inl refl
  as_float_kept (both_some (as_whole e)) = inr e
  as_float_kept (both_some (same_object h)) = inl refl
  as_float_kept (both_some (same_array h)) = inl refl

  pub as_map_kept : {o p : Option (Value F)} → SameOption o p → SameMap (as_map o) (as_map p)
  as_map_kept both_none = no_map
  as_map_kept (both_some same_text) = no_map
  as_map_kept (both_some same_whole) = no_map
  as_map_kept (both_some same_number) = no_map
  as_map_kept (both_some (as_whole e)) = no_map
  as_map_kept (both_some (same_object h)) = both_map h
  as_map_kept (both_some (same_array h)) = no_map

  -- What was sent as an int64 is read as it was.
  as_int64_kept :
      {o p : Option (Value F)} {n : ℤ}
      → SameOption o p
      → o ≡ some (whole n)
      → as_int64 p ≡ as_int64 o
  as_int64_kept both_none e = refl
  as_int64_kept (both_some same_text) e = refl
  as_int64_kept (both_some same_whole) e = refl
  as_int64_kept (both_some same_number) e = refl
  as_int64_kept (both_some (as_whole h)) e = cc
  as_int64_kept (both_some (same_object h)) e = refl
  as_int64_kept (both_some (same_array h)) e = refl

  metric_from_map-SameMetric :
      (m n : Entries F) → SameEntries m n → SameMetric (metric_from_map m) (metric_from_map n)
  unfolding metric_from_map nested_float nested_string
  metric_from_map-SameMetric m n h = record {
    avg = as_float_kept (h (codes "avg"));
    p50 = as_float_kept (h (codes "p50"));
    p95 = as_float_kept (h (codes "p95"));
    p99 = as_float_kept (h (codes "p99"));
    max_seen = as_float_kept (h (codes "max"));
    histogram = as_text_kept (h (codes "histogram"));
  }

  metric_in-SameMetric :
      {o p : Option (Entries F)} → SameMap o p → SameMetric (metric_in o) (metric_in p)
  unfolding metric_in
  metric_in-SameMetric no_map = record {
    avg = inl refl;
    p50 = inl refl;
    p95 = inl refl;
    p99 = inl refl;
    max_seen = inl refl;
    histogram = refl;
  }
  metric_in-SameMetric (both_map h) = metric_from_map-SameMetric _ _ h

  container_from-SameContainer :
      (m n : Entries F) → SameEntries m n → SameContainer (container_from m) (container_from n)
  unfolding container_from nested_map nested_string
  container_from-SameContainer m n h = record {
    name = as_text_kept (h (codes "name"));
    cpu = metric_in-SameMetric (as_map_kept (h (codes "cpu")));
    memory = metric_in-SameMetric (as_map_kept (h (codes "memory")));
  }

  containers_from_items-SameContainers :
      {is js : Items F}
      → SameItems is js
      → SameContainers (containers_from_items is) (containers_from_items js)
  unfolding containers_from_items
  containers_from_items-SameContainers no_items = no_containers
  containers_from_items-SameContainers (more_items same_text r) =
      containers_from_items-SameContainers r
  containers_from_items-SameContainers (more_items same_whole r) =
      containers_from_items-SameContainers r
  containers_from_items-SameContainers (more_items same_number r) =
      containers_from_items-SameContainers r
  containers_from_items-SameContainers (more_items (as_whole e) r) =
      containers_from_items-SameContainers r
  containers_from_items-SameContainers (more_items (same_object h) r) =
      more_containers (container_from-SameContainer _ _ h) (containers_from_items-SameContainers r)
  containers_from_items-SameContainers (more_items (same_array h) r) =
      containers_from_items-SameContainers r

  as_containers-SameContainers :
      {o p : Option (Value F)} → SameOption o p → SameContainers (as_containers o) (as_containers p)
  unfolding as_containers
  as_containers-SameContainers both_none = no_containers
  as_containers-SameContainers (both_some same_text) = no_containers
  as_containers-SameContainers (both_some same_whole) = no_containers
  as_containers-SameContainers (both_some same_number) = no_containers
  as_containers-SameContainers (both_some (as_whole e)) = no_containers
  as_containers-SameContainers (both_some (same_object h)) = no_containers
  as_containers-SameContainers (both_some (same_array h)) = containers_from_items-SameContainers h

  -- A status whose count was sent as an int64 is read as it was sent, up to `==` of its figures.
  pub status_from_map-SameStatus :
      (m n : Entries F) {count : ℤ}
      → lookup_key (codes "sampleCount") m ≡ some (whole count)
      → SameEntries m n
      → SameStatus (status_from_map m) (status_from_map n)
  unfolding status_from_map nested_string nested_int64 nested_float
  status_from_map-SameStatus m n c h = record {
    observed_since = as_text_kept (h (codes "observedSince"));
    last_updated = as_text_kept (h (codes "lastUpdated"));
    sample_count = as_int64_kept (h (codes "sampleCount")) c;
    window_seconds = as_float_kept (h (codes "windowSeconds"));
    containers = as_containers-SameContainers (h (codes "containers"));
  }

  -- A map that is nested in what is read is the one that was sent.
  pub nested_kept :
      (m n : Entries F) (key : Text)
      → SameEntries m n
      → SameMap (nested_map m key) (nested_map n key)
  unfolding nested_map
  nested_kept m n key h = as_map_kept (h key)

  pub string_kept :
      (m n : Entries F) (key : Text) → SameEntries m n → nested_string n key ≡ nested_string m key
  unfolding nested_string
  string_kept m n key h = as_text_kept (h key)

  target_kept : {o p : Option (Entries F)} → SameMap o p → target_in p ≡ target_in o
  unfolding target_in
  target_kept no_map = refl
  target_kept (both_map h) = λ i. record {
    kind = string_kept _ _ (codes "kind") h i;
    name = string_kept _ _ (codes "name") h i;
  }

  pub spec_kept : {o p : Option (Entries F)} → SameMap o p → spec_in p ≡ spec_in o
  unfolding spec_in
  spec_kept no_map = refl
  spec_kept (both_map h) =
      λ i. record { target_ref = target_kept (nested_kept _ _ (codes "targetRef") h) i }

  pub metadata_kept :
      {o p : Option (Entries F)} (key : Text)
      → SameMap o p
      → metadata_text p key ≡ metadata_text o key
  unfolding metadata_text
  metadata_kept key no_map = refl
  metadata_kept key (both_map h) = string_kept _ _ key h
