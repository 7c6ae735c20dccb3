-- ===== src/Agents/Roles.antt =====
-- The role tables of backend/app/services/agent_registry_service.py.
use tacktcix.Prelude.{String, List, [], ◌∷◌, none, some}
use tacktcix.Prelude.Int.{pos}
use tacktcix.Agents.Message.{AgentRegister}
use tacktcix.Prelude.Dict.{Dict}
use tacktcix.Prelude.Float.{Float}

module _ (f : Float) where
  ceo_capabilities : Dict String f.F
  ceo_capabilities =
      ("business", f.lit 1 0)
      ∷ ("strategy", f.lit 1 0)
      ∷ ("governance", f.lit 9 1)
      ∷ ("communication", f.lit 9 1)
      ∷ ("leadership", f.lit 1 0)
      ∷ []

  cto_capabilities : Dict String f.F
  cto_capabilities =
      ("backend", f.lit 9 1)
      ∷ ("architecture", f.lit 1 0)
      ∷ ("infrastructure", f.lit 9 1)
      ∷ ("security", f.lit 8 1)
      ∷ ("code_review", f.lit 9 1)
      ∷ []

  pm_capabilities : Dict String f.F
  pm_capabilities =
      ("product", f.lit 1 0)
      ∷ ("planning", f.lit 1 0)
      ∷ ("communication", f.lit 9 1)
      ∷ ("analytics", f.lit 7 1)
      ∷ ("stakeholder", f.lit 9 1)
      ∷ []

  frontend_dev_capabilities : Dict String f.F
  frontend_dev_capabilities =
      ("frontend", f.lit 1 0)
      ∷ ("ui", f.lit 1 0)
      ∷ ("design", f.lit 7 1)
      ∷ ("accessibility", f.lit 7 1)
      ∷ ("frontend_testing", f.lit 8 1)
      ∷ []

  backend_dev_capabilities : Dict String f.F
  backend_dev_capabilities =
      ("backend", f.lit 1 0)
      ∷ ("api", f.lit 1 0)
      ∷ ("database", f.lit 9 1)
      ∷ ("security", f.lit 6 1)
      ∷ ("backend_testing", f.lit 8 1)
      ∷ []

  ai_dev_capabilities : Dict String f.F
  ai_dev_capabilities =
      ("ai_ml", f.lit 1 0)
      ∷ ("nlp", f.lit 9 1)
      ∷ ("prompt_engineering", f.lit 1 0)
      ∷ ("data_science", f.lit 8 1)
      ∷ ("model_deployment", f.lit 8 1)
      ∷ []

  devops_capabilities : Dict String f.F
  devops_capabilities =
      ("infrastructure", f.lit 1 0)
      ∷ ("ci_cd", f.lit 1 0)
      ∷ ("cloud", f.lit 1 0)
      ∷ ("monitoring", f.lit 8 1)
      ∷ ("security", f.lit 7 1)
      ∷ []

  qa_capabilities : Dict String f.F
  qa_capabilities =
      ("testing", f.lit 1 0)
      ∷ ("automation", f.lit 9 1)
      ∷ ("security_testing", f.lit 6 1)
      ∷ ("performance", f.lit 7 1)
      ∷ ("documentation", f.lit 6 1)
      ∷ []

  designer_capabilities : Dict String f.F
  designer_capabilities =
      ("design", f.lit 1 0)
      ∷ ("ui", f.lit 1 0)
      ∷ ("ux", f.lit 1 0)
      ∷ ("accessibility", f.lit 8 1)
      ∷ ("prototyping", f.lit 9 1)
      ∷ []

  marketing_capabilities : Dict String f.F
  marketing_capabilities =
      ("content_creation", f.lit 1 0)
      ∷ ("campaign_management", f.lit 1 0)
      ∷ ("analytics", f.lit 9 1)
      ∷ ("seo", f.lit 8 1)
      ∷ ("social_media", f.lit 9 1)
      ∷ ("email_marketing", f.lit 8 1)
      ∷ ("brand_strategy", f.lit 9 1)
      ∷ ("market_research", f.lit 7 1)
      ∷ []

  -- Proficiency mappings for the standard agent roles.
  unfoldable pub role_capabilities : Dict String (Dict String f.F)
  unfolding ceo_capabilities cto_capabilities pm_capabilities frontend_dev_capabilities
      backend_dev_capabilities ai_dev_capabilities devops_capabilities qa_capabilities
      designer_capabilities marketing_capabilities
  role_capabilities =
      ("ceo", ceo_capabilities)
      ∷ ("cto", cto_capabilities)
      ∷ ("pm", pm_capabilities)
      ∷ ("frontend_dev", frontend_dev_capabilities)
      ∷ ("backend_dev", backend_dev_capabilities)
      ∷ ("ai_dev", ai_dev_capabilities)
      ∷ ("devops", devops_capabilities)
      ∷ ("qa", qa_capabilities)
      ∷ ("designer", designer_capabilities)
      ∷ ("marketing", marketing_capabilities)
      ∷ []

  unfoldable pub role_cost : Dict String f.F
  role_cost =
      ("ceo", f.lit 3 0)
      ∷ ("cto", f.lit 25 1)
      ∷ ("pm", f.lit 2 0)
      ∷ ("frontend_dev", f.lit 1 0)
      ∷ ("backend_dev", f.lit 1 0)
      ∷ ("ai_dev", f.lit 15 1)
      ∷ ("devops", f.lit 15 1)
      ∷ ("qa", f.lit 8 1)
      ∷ ("designer", f.lit 12 1)
      ∷ ("marketing", f.lit 12 1)
      ∷ []

  standard : String → String → String → AgentRegister f
  standard role name description = record {
    role = role;
    name = name;
    description = some description;
    capabilities = none;
    cost_per_task = f.lit 1 0;
    max_concurrent_tasks = pos 3;
    metadata = none;
  }

  -- The standard team; the fields that the source leaves out have the defaults of AgentRegister.
  unfoldable pub default_team : List (AgentRegister f)
  unfolding standard
  default_team =
      standard "ceo" "CEO Agent" "Strategic direction, governance, and team orchestration."
      ∷ standard "cto" "CTO Agent"
          "Technical architecture, engineering leadership, and code review."
      ∷ standard "pm" "PM Agent" "Product vision, roadmap, priorities, and stakeholder alignment."
      ∷ standard "frontend_dev" "Frontend Agent" "UI/UX implementation with Next.js and Tailwind."
      ∷ standard "backend_dev" "Backend Agent" "API and server development with FastAPI."
      ∷ standard "ai_dev" "AI Agent" "LLM integration, prompt engineering, and AI features."
      ∷ standard "devops" "DevOps Agent" "Infrastructure, CI/CD, Docker, and Kubernetes."
      ∷ standard "qa" "QA Agent" "Testing, quality assurance, and validation."
      ∷ standard "designer" "Designer Agent" "UX design, interface design, and prototyping."
      ∷ standard "marketing" "Marketing Agent"
          "Content generation, campaign management, and performance analytics."
      ∷ []
