-- ===== src/Workload/Tests.antt =====
-- The planner on three classes, and the parser on good and on bad lists of classes.
use predictive_autoscaling_k.Common.{[], none, refl, some, ◌∷◌, ◌≡◌}
use predictive_autoscaling_k.Common.Int.{pos}
use predictive_autoscaling_k.Workload.{
  WorkloadConfig, build_request, check_request_classes, err, has_any, has_duplicates, has_unknown,
  init_planner, is_supported, no_configured_class, ok, parse_request_classes, unsupported_classes,
}

abbrev three_classes : WorkloadConfig
three_classes = record {
  seed = pos 42;
  demand_base_path = "/demand";
  request_classes = "html" ∷ "image" ∷ "video" ∷ [];
}

parses_video : parse_request_classes (some ("video" ∷ [])) ≡ ok ("video" ∷ [])
unfolding parse_request_classes check_request_classes has_duplicates has_unknown has_any
    is_supported
parses_video = refl

refuses_locust : parse_request_classes (some ("locust" ∷ [])) ≡ err unsupported_classes
unfolding parse_request_classes check_request_classes has_duplicates has_unknown has_any
    is_supported
refuses_locust = refl

refuses_no_class :
    init_planner (record three_classes { request_classes = [] }) ≡ err no_configured_class
unfolding init_planner
refuses_no_class = refl

video_request : build_request three_classes "video" ≡ record {
  method = "GET";
  path = "/demand/video";
  report_url = "/demand/video";
  json_body = none;
}
unfolding build_request
video_request = refl
