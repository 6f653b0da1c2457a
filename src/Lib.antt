-- ===== src/Lib.antt =====
-- A verification library for kubetidy, which recommends resource requests for Kubernetes workloads.
--
-- The program measures containers (a snapshot, the histograms of its operator, or Prometheus), turns
-- the measurements into a proposal and a confidence, prices the change, and collects the results of
-- all workloads into a scan with an efficiency score. A sweep of the cluster looks for objects that
-- nothing uses. The operator samples the workloads, keeps their histograms, saves them as profiles
-- that a scan reads, and writes recommendations; a change set turns recommendations into patches, and
-- the cost of two manifests is compared.
--
-- Parts and files:
--   Model: internal/model/model.go, the domain types and the bands of a confidence.
--   Rightsizer: internal/rightsizer/rightsizer.go, `Recommend` (recommend, with its two halves
--     recommend_cpu and recommend_memory), `dataMaturity` and the score of `Confidence`. Mebibytes,
--     Limits, Safety, Settling, Coverage, Trust and Variation hold the proofs on rounding, limits,
--     floors and growth, a second run, measured usage, confidence, and confidence under variation.
--   Histogram: internal/histogram/histogram.go, the decaying histogram of the operator and its
--     checkpoints. Layout holds the invariant, Buckets, Quantiles, Peak and Checkpoint the reads.
--   Cost: internal/costmodel/costmodel.go, prices; Signs holds the proof.
--   Score: internal/score/score.go, the efficiency score; Range holds the proof.
--   Scan: internal/scan/scan.go, `analyzeWorkload`, `isNoise`, `dominantTier` and `Run`. Tier,
--     Analysis and Isolation hold the proofs.
--   Cleanup: internal/cleanup/cleanup.go, the detectors of the sweep; Storage, Routing and Idle hold
--     the proofs.
--   Profile: internal/apis/usageprofile/types.go, the UsageProfile object, its name and its generic
--     form; Naming and RoundTrip hold the proofs.
--   Recommend: internal/recommend/recommend.go and api/v1alpha1/recommendation_types.go, one object
--     for each workload; Groups holds the proof.
--   Wording: the texts of internal/scan/scan.go (`buildEvidence`, `buildExplanation` and the formats)
--     and of internal/rightsizer/rightsizer.go (`buildReason`).
--   Summary: internal/summary/summary.go and api/v1alpha1/clusterusagesummary_types.go, the rollup
--     of a cluster; Counts holds the proof.
--   Scan.Pool: the goroutines of `Run` in internal/scan/scan.go, as a step relation. Totals counts the
--     phases, and Safety, Progress, Reports and Refinement hold the proofs.
--   Operator: internal/operator/collector.go and snapshot.go, the live states, profiles and
--     rehydration; Operator.Cycle is `Tick`, and Validity, Isolation and Restart hold the proofs.
--     Operator.Store is internal/operator/store.go, create or update with the status subresource;
--     Fields and Laws hold the proofs.
--   Patch: internal/patch/patch.go, the patch document and the kubectl command.
--   Gitops: internal/gitops/gitops.go, the change set, with its wording in Texts;
--     Selection and Dollars hold the proofs.
--   Pricing: internal/pricing/config.go and detect.go, configured prices and the candidates;
--     Opencost is internal/pricing/opencost.go.
--   Manifest: internal/manifest/manifest.go and cost.go, costs and their comparison; Parse reads
--     the workloads, and Ranking and Order hold the proofs.
--   Usage: internal/usage/fallback.go, metricsserver.go and operator.go, and
--     internal/operator/sampler.go; Prometheus is internal/usage/prometheus.go and detect.go, and
--     Handover holds the proof from the collector to the scan.
--   Kube: internal/kube/kube.go, `Discover`.
--   Cli: internal/cli/scan.go, `selectUsageProvider`, `selectPriceProvider` and the scan with them.
--   Report: internal/report/report.go, the texts of the report without its layout;
--     Formats has its numbers.
--   Base: lists, texts, 64-bit integers and floats that the parts share.
-- The Tests of each part run its definitions on concrete inputs.
--
-- How the code is represented. A Go string is the list of its code points. An `int64` is an
-- integer, whose sums and products wrap around where the code could overflow (Base/Int). A
-- `float64` is an element of a type F with the operations of the class Float64 (Base/Float), since
-- the rounding of the hardware is not in the repository; theorems that need more take the laws of
-- IEEE arithmetic that they use (IsIeee): the order is total on numbers, the operations are
-- monotone and conversions are exact on the sizes that occur. Nothing takes sums to be associative
-- or exact. Fixed is a concrete F that meets the laws, decimal numbers cut to a fixed number of
-- digits, and the examples run on it. A loop over a slice is recursion on the list; a Go map is an
-- association list or a list of keys, and where the code ranges over a map the order is an
-- argument (`tier_order` of a scan). Usage and price providers are functions of the workload that
-- give a value or the text of an error. The worker pool of `Run` is a step relation of its
-- goroutines, and `run` reads its slots in order. Label selectors, `math.Trunc` and the printing
-- of numbers are fields of Kubernetes (Cleanup) and Printer (Wording).
--
-- A store of the operator is any state with the calls of the dynamic client (Operator.Store); the
-- lister, the sampler, the pricer, the clock and the writers of a tick are the fields of Cluster
-- (Operator.Cycle), and JSON, base64 and the formats of time are the fields of Codec (Operator).
-- What the server stores has passed through JSON, which may turn a float64 that is a whole number
-- into an int64: the laws of a server (IsServer) take spec and status up to that (Operator.Store.Json),
-- and the server of the examples does it (Encoding, Slot).
--
-- The standard library's parsers and printers, JSON, YAML, HTTP and the calls of the Kubernetes
-- clients are parameters in the same way (Renderer, Decoder, Parsers, OpencostApi, AppsApi,
-- Sources). The stable sort is insertion (Base/Sort), and a map with texts as keys is Base/Maps.
-- The fuel of `digit_groups` (Gitops) is the number of digits, which Dollars shows to be enough.
--
-- Not modelled: the construction of clients and of a proxy transport, the list call of the operator's
-- lister and its ticker, the installer, the layout of the reports, the terminal interface, the
-- commands, and generated code. They are wiring, calls of other libraries, or the layout of text.
pub mod Base
pub mod Model
pub mod Rightsizer
pub mod Histogram
pub mod Cost
pub mod Score
pub mod Wording
pub mod Cleanup
pub mod Profile
pub mod Recommend
pub mod Summary
pub mod Scan
pub mod Patch
pub mod Gitops
pub mod Pricing
pub mod Manifest
pub mod Operator
pub mod Usage
pub mod Kube
pub mod Cli
pub mod Report
