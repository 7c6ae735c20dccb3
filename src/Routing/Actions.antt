-- ===== src/Routing/Actions.antt =====
-- TaskOrchestrator._domains_for_action of backend/app/services/task_orchestrator_service.py.
use tacktcix.Prelude.{String, List, [], ◌∷◌, string_eq}
use tacktcix.Prelude.Dict.{Dict, get_or}

action_domains : Dict String (List String)
action_domains =
    ("scan_pending_tasks", "planning" ∷ "analytics" ∷ [])
    ∷ ("prioritize_by_dependencies", "planning" ∷ "product" ∷ [])
    ∷ ("assign_to_agents", "governance" ∷ "leadership" ∷ [])
    ∷ ("execute_tasks", "backend" ∷ "frontend" ∷ [])
    ∷ ("report_status", "communication" ∷ "analytics" ∷ [])
    ∷ ("self_review", "code_review" ∷ "testing" ∷ [])
    ∷ ("peer_review", "code_review" ∷ "communication" ∷ [])
    ∷ ("cto_review", "architecture" ∷ "code_review" ∷ [])
    ∷ ("sandbox_deploy", "infrastructure" ∷ "ci_cd" ∷ [])
    ∷ ("qa_validation", "testing" ∷ "automation" ∷ [])
    ∷ ("request_approval", "governance" ∷ "communication" ∷ [])
    ∷ ("production_deploy", "infrastructure" ∷ "cloud" ∷ [])
    ∷ ("conduct_onboarding_interview", "product" ∷ "communication" ∷ [])
    ∷ ("analyze_vision", "ai_ml" ∷ "nlp" ∷ [])
    ∷ ("generate_knowledge_graph", "ai_ml" ∷ "data_science" ∷ [])
    ∷ ("generate_constitution", "strategy" ∷ "governance" ∷ [])
    ∷ ("generate_roadmap", "planning" ∷ "product" ∷ [])
    ∷ ("generate_architecture", "architecture" ∷ "backend" ∷ [])
    ∷ ("generate_initial_tasks", "planning" ∷ "product" ∷ [])
    ∷ ("present_dashboard", "communication" ∷ "ui" ∷ [])
    ∷ ("generate_content", "content_creation" ∷ "seo" ∷ [])
    ∷ ("create_campaign", "campaign_management" ∷ "brand_strategy" ∷ [])
    ∷ ("analyze_campaign_performance", "analytics" ∷ "campaign_management" ∷ [])
    ∷ ("create_social_media_post", "content_creation" ∷ "social_media" ∷ [])
    ∷ ("create_email_campaign", "email_marketing" ∷ "content_creation" ∷ [])
    ∷ ("analyze_market_trends", "market_research" ∷ "analytics" ∷ [])
    ∷ ("track_campaign_metrics", "analytics" ∷ "campaign_management" ∷ [])
    ∷ []

unfoldable pub domains_for_action : (action role : String) → List String
unfolding action_domains
domains_for_action action role = get_or action (role ∷ []) action_domains
